-- ===== src/ParamSet/Tags.antt =====
-- The tags of interfaces/inner_api/huks_standard/main/include/hks_type_enum.h and
-- frameworks/huks_standard/main/common/include/hks_type_inner.h that the modelled code names, and
-- `g_validTags` of hks_param.c, in its order. A tag is its type, shifted by 28 bits, and a number.
use Prim.Native.Nat.{ℕ, ◌+◌, ◌*◌, ◌^◌}
use mathlib.Core.List.{List, [], ◌∷◌}

abbrev tag_of : ℕ → ℕ → ℕ
tag_of kind number = kind * 2 ^ 28 + number

abbrev pub tag_algorithm : ℕ
tag_algorithm = tag_of 2 1

abbrev pub tag_purpose : ℕ
tag_purpose = tag_of 2 2

abbrev pub tag_block_mode : ℕ
tag_block_mode = tag_of 2 6

abbrev pub tag_digest : ℕ
tag_digest = tag_of 2 4

abbrev pub tag_key_auth_id : ℕ
tag_key_auth_id = tag_of 5 1005

abbrev pub tag_key_role : ℕ
tag_key_role = tag_of 2 1006

abbrev pub tag_key_flag : ℕ
tag_key_flag = tag_of 2 1007

abbrev pub tag_key_domain : ℕ
tag_key_domain = tag_of 2 1011

abbrev pub tag_key : ℕ
tag_key = tag_of 5 10006

abbrev pub tag_crypto_ctx : ℕ
tag_crypto_ctx = tag_of 3 10005

abbrev pub tag_access_token_id : ℕ
tag_access_token_id = tag_of 2 30021

abbrev pub tag_specific_user_id : ℕ
tag_specific_user_id = tag_of 1 317

abbrev pub tag_is_batch_operation : ℕ
tag_is_batch_operation = tag_of 4 314

abbrev pub tag_batch_operation_timeout : ℕ
tag_batch_operation_timeout = tag_of 2 315

abbrev pub tag_padding : ℕ
tag_padding = tag_of 2 5

abbrev pub tag_associated_data : ℕ
tag_associated_data = tag_of 5 8

abbrev pub tag_batch_purpose : ℕ
tag_batch_purpose = tag_of 2 313

abbrev pub tag_import_key_type : ℕ
tag_import_key_type = tag_of 2 25

abbrev pub tag_iteration : ℕ
tag_iteration = tag_of 2 14

abbrev pub tag_iv : ℕ
tag_iv = tag_of 5 10

abbrev pub tag_key_size : ℕ
tag_key_size = tag_of 2 3

abbrev pub tag_nonce : ℕ
tag_nonce = tag_of 5 9

abbrev pub tag_salt : ℕ
tag_salt = tag_of 5 12

abbrev pub tag_unwrap_algorithm_suite : ℕ
tag_unwrap_algorithm_suite = tag_of 2 26

unfoldable pub valid_tags : List ℕ
valid_tags =
    tag_of 2 1
    ∷ tag_of 2 2
    ∷ tag_of 2 3
    ∷ tag_of 2 4
    ∷ tag_of 2 5
    ∷ tag_of 2 6
    ∷ tag_of 2 7
    ∷ tag_of 5 8
    ∷ tag_of 5 9
    ∷ tag_of 5 10
    ∷ tag_of 5 12
    ∷ tag_of 5 13
    ∷ tag_of 5 11
    ∷ tag_of 2 14
    ∷ tag_of 2 15
    ∷ tag_of 5 16
    ∷ tag_of 5 17
    ∷ tag_of 2 18
    ∷ tag_of 2 19
    ∷ tag_of 4 20
    ∷ tag_of 5 21
    ∷ tag_of 5 22
    ∷ tag_of 5 23
    ∷ tag_of 2 24
    ∷ tag_of 2 25
    ∷ tag_of 2 26
    ∷ tag_of 2 29
    ∷ tag_of 2 30
    ∷ tag_of 2 31
    ∷ tag_of 3 201
    ∷ tag_of 3 202
    ∷ tag_of 3 203
    ∷ tag_of 3 204
    ∷ tag_of 4 301
    ∷ tag_of 2 302
    ∷ tag_of 1 312
    ∷ tag_of 4 303
    ∷ tag_of 2 304
    ∷ tag_of 2 305
    ∷ tag_of 5 306
    ∷ tag_of 2 316
    ∷ tag_of 1 317
    ∷ tag_of 2 10101
    ∷ tag_of 2 10102
    ∷ tag_of 5 501
    ∷ tag_of 5 502
    ∷ tag_of 2 518
    ∷ tag_of 5 503
    ∷ tag_of 5 504
    ∷ tag_of 5 505
    ∷ tag_of 5 506
    ∷ tag_of 5 507
    ∷ tag_of 5 508
    ∷ tag_of 5 509
    ∷ tag_of 5 510
    ∷ tag_of 5 511
    ∷ tag_of 5 512
    ∷ tag_of 5 513
    ∷ tag_of 5 514
    ∷ tag_of 5 515
    ∷ tag_of 4 516
    ∷ tag_of 2 517
    ∷ tag_of 2 100001
    ∷ tag_of 4 1001
    ∷ tag_of 2 1002
    ∷ tag_of 4 1003
    ∷ tag_of 2 1004
    ∷ tag_of 2 1016
    ∷ tag_of 4 1015
    ∷ tag_of 2 1014
    ∷ tag_of 5 1005
    ∷ tag_of 2 1006
    ∷ tag_of 2 1007
    ∷ tag_of 2 1011
    ∷ tag_of 2 307
    ∷ tag_of 2 308
    ∷ tag_of 2 309
    ∷ tag_of 2 310
    ∷ tag_of 2 311
    ∷ tag_of 2 313
    ∷ tag_of 4 314
    ∷ tag_of 2 315
    ∷ tag_of 2 319
    ∷ tag_of 5 10011
    ∷ tag_of 4 10012
    ∷ tag_of 5 10013
    ∷ tag_of 5 10014
    ∷ tag_of 5 10015
    ∷ tag_of 1 10016
    ∷ tag_of 4 10017
    ∷ tag_of 5 10018
    ∷ tag_of 4 10019
    ∷ tag_of 5 10001
    ∷ tag_of 5 10002
    ∷ tag_of 2 10008
    ∷ tag_of 5 10009
    ∷ tag_of 3 10005
    ∷ tag_of 5 10006
    ∷ tag_of 2 10007
    ∷ tag_of 3 10010
    ∷ tag_of 5 20001
    ∷ tag_of 5 20002
    ∷ tag_of 5 20003
    ∷ tag_of 3 10020
    ∷ tag_of 2 30021
    ∷ tag_of 5 30022
    ∷ tag_of 4 1012
    ∷ tag_of 5 10023
    ∷ tag_of 5 10021
    ∷ tag_of 2 10022
    ∷ tag_of 2 1017
    ∷ []

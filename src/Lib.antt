-- ===== src/Lib.antt =====
-- HUKS, the key store of OpenHarmony: the parts of its C code that keep state and carry data
-- between a client and the key engine. Paths are from the root of the repository.
--
-- A client describes every operation by a parameter set (frameworks/huks_standard/main/common/
-- src/hks_param.c). It is a block of memory that is sent as it is, so that the service checks and
-- sets its pointers before it is read. The service keeps a session for every operation of several
-- stages (services/huks_standard/huks_service/main/core/src/hks_session_manager.c).
--
-- - Prelude: tests, lists and the 32-bit arithmetic that the other modules share.
-- - Status: the result codes, by their names without HKS_ERROR (`Status`).
-- - Memory: `HksMalloc`, and the C library as a parameter: `malloc` may fail at any size, and
--   `memcpy_s` does what securec documents (`IsSecurec`), as a hypothesis of the theorems; its
--   limit of 2 GB for a buffer is left out.
-- - ParamSet: hks_param.c. `ParamSet` is `struct HksParamSet`: the size field, the array of
--   entries, and the bytes behind it. A blob points nowhere, outside the set, to an offset in it,
--   or into freed memory (`Ptr`); the union of an entry is its scalar and its blob. Sizes are
--   those of a 64-bit build. ParamSet/Tags has the tags, ParamSet/Build the functions that set the
--   pointers; Size, Layout, Copy and Lookup hold the proofs. A function that changes a set in
--   place returns it beside the result code. Freed memory is modelled where a set moves to another
--   block: the blobs inside the first one dangle. That `memcpy_s` refuses blobs that overlap the
--   block that is being built is not modelled, and the theorems on building suppose blobs outside
--   the set.
-- - Session: hks_session_manager.c. `Sessions` is `g_operationList`, oldest first, with
--   `g_operationCount` and the handles that the engine was told to abort. Every public function
--   holds `g_lock` throughout, but for MarkOperationUnUse, which takes no lock and makes one
--   store, so that a call is one step. The clock is a sequence of readings, each of which may
--   fail. `MAX_OPERATIONS_EACH_TOKEN_ID` is that of a build with access tokens. Session/Access and
--   Session/Create have the rest of the calls; Remove, Evictions, Limits, Evict, InUse and Run
--   hold the proofs. `userIdInt` and `uidInt`, which are only logged, are left out.
-- - FileLock: services/huks_standard/huks_service/main/hks_storage/src/hks_storage_file_lock.c.
--   The list of locks of paths, with the number of users of each; FileLock/Counts and
--   FileLock/Release hold the proofs. Locking itself is the business of pthread.
-- - Ipc: the serialization of requests. Ipc/Client is frameworks/huks_standard/main/os_dependency/
--   ipc/src/hks_client_ipc_serialization.c, Ipc/Service is services/huks_standard/huks_service/
--   main/os_dependency/idl/ipc/hks_service_ipc_serialization.c. A buffer is the list of its bytes.
--   The layout of struct HksParamSet in memory is a parameter (`Abi`), of which the theorems
--   suppose that the size field is the first four bytes, and that the struct does not depend on
--   what stands behind it (`IsAbi`). Sent says when a write and a read agree and composes such
--   pairs; Buffer, Blobs and Copied prove it of the three kinds of arguments, RoundTrip and
--   Delete of whole requests, Inside is about buffers that anyone may have made. The
--   answers, and the requests for a list of keys, are not modelled.
-- - Check: the checks of parameters, frameworks/huks_standard/main/common/src/hks_base_check.c and
--   hks_check_paramset.c, as the standard build (include/hks_config.h, with access control by user
--   authentication and L2_STANDARD) compiles them: without DES, 3DES, CMAC and RSA keys of other
--   lengths. Check/Values and Check/Lists hold the numbers, Asked, Expected and Algorithms the
--   tables; Purpose, Inputs, Fixed, Padding, Cipher, Material, Signature, UserAuth and KeyMaterial
--   one step of a check each; Request and Finish the checks of whole requests. A check that ends
--   with a code is a `Status`, one that also gives a value a `Result`. A key is its bytes; a buffer
--   that only lends its size is a number. Accepted, Access, Room, Parts, Passed and Sound hold the
--   proofs, over lists and sizes written independently of the code; Chain is about chains of checks.
--   Import has the checks of keys to import, with what OpenSSL says of a key as a parameter.
-- - Wrapped: the data of a wrapped key, in common/src/hks_common_check.c. `Framed` says what such data
--   are; the rounds that are left are the fuel of the loops, and are an argument of the code too.
-- - KeyNode: services/huks_standard/huks_engine/main/core/src/hks_keynode.c. `KeyNodes` is
--   `g_keyNodeList`, oldest first, with `g_keyNodeCount`. The random source and the clock are
--   sequences of answers; what became of the key blob (HksGetAadAndParamSet, HksDecryptKeyBlob) is
--   an argument. A call is one step: HksCreateKeyNode sets the parameters of a node after it has
--   left the lock, and what another thread sees in between is not modelled. The ten tries for a
--   handle are those of the code. KeyNode/Create makes a node; Limits, Room, Handles, Steps and Run hold
--   the proofs.
-- - Auth: hks_auth.c beside it: the policies, and the match of a request with the key of a node.
-- - StorageLite: services/huks_standard/huks_service/main/hks_storage/src/hks_storage_lite.c, the
--   key store of the builds with _STORAGE_LITE_. `Image` is `g_storageImageBuffer`, the header
--   struct and the bytes behind it, `Store` adds the files by their names, and `Device` is what
--   the code asks of the system: memory, the random source, the HMAC, and which files it opens,
--   reads, writes and removes. StorageLite/Files is utils/file_operator/hks_file_operator_lite.c;
--   Load loads and writes the image, Keys searches it and moves its bytes, Operate has the public
--   functions on keys, KeyInfos the list of them (with the sets of hks_storage_adapter.c beside
--   it), Destroy HksStoreDestroy. The searches run `keyCount` rounds, as in the code, and are
--   recursions on that number. Records, Find, Cut, Splice, Held, Midst, Stored, Kept and Replaced
--   hold the proofs, with lists of keys as the abstract store (Abstract); HeaderBytes and Reload
--   are about the file, Described, Members and Listed about the list, Destroyed about
--   HksStoreDestroy. The directory is HKS_KEY_STORE_PATH in every call. The pointers in a set of
--   the list dangle, since they are copied as they are and the set they point into is freed.
-- - Asn1: services/huks_standard/huks_engine/main/device_cert_manager/src/dcm_asn1.c, and in
--   Asn1/PublicKey dcm_attest_utils.c beside it. `Out` is the `struct HksBlob` of a writer. The
--   size of what is left of a buffer behind a header wraps where the buffer is shorter than that;
--   the result is `none` there, where the code would write behind the buffer. Lengths, RoundTrip
--   and Inserted are about values, Sequences and RsaKey about a whole public key.
--
-- The other loops run over lists, so no fuel is needed. Not modelled: cryptography, the storage of keys
-- in a file each (hks_storage.c), the three stages of the engine, the parsing of attestations, IPC and
-- HDI transport, logging, and the bindings for other languages.
pub mod Asn1
pub mod Auth
pub mod Check
pub mod FileLock
pub mod Ipc
pub mod KeyNode
pub mod Memory
pub mod ParamSet
pub mod Prelude
pub mod Session
pub mod Status
pub mod StorageLite
pub mod Wrapped

-- ===== src/Lib.antt =====
-- apicrud is a framework for REST services in Python: role-based access control, sessions in redis,
-- controllers for the records of a database, usage limits, and the login that stands on these.
-- This library models the core of it, in apicrud/*.py, and proves what makes it correct.
--
-- The parts, and the files that model them:
--   Prelude            names of the libraries passed on; Boolean tests, `==` as a class, lists measured
--                      by native numbers, integers.
--   Python             what the source uses of Python: str (Text), str.format (Format), the regular
--                      expressions that occur in rbac.yaml (Regex), set (PySet), dict (Dict), list.sort
--                      (Sort), `%d` and int(text, 0) (Number), float (Float), exceptions as values
--                      (Result).
--   Redis              the commands that the source sends to redis, as an interface: a record of the
--                      operations with their documented laws. A state tells the value of each key after
--                      any number of seconds without a command. Redis.Table is an instance.
--   Database           the statements that reach a table, as an interface with laws, and the session's
--                      transaction: what its statements see, and what is committed. Database.Memory is
--                      an instance.
--   Access             apicrud/access.py, class AccessControl: load_rbac (Load), rbac_permissions and
--                      with_permission (Rbac), with_filter (Filter), _parse_id (Role), apikey_create and
--                      apikey_verify (ApiKey).
--   Session            apicrud/session_manager.py, class SessionManager: create, get, update, delete.
--   Mutex              apicrud/session_manager.py, class Mutex: acquire and release.
--   RateLimit          apicrud/ratelimit.py, class RateLimit: call, reset, _get_request_uid.
--   Metrics            apicrud/metrics.py, class Metrics: store and check.
--   Grants             apicrud/grants.py, class Grants: get, uncache, load_defaults, the rows of find. The
--                      cache of cachetools is an interface.
--   Aes                apicrud/aes_encrypt.py: encrypt, decrypt and the padding of both classes.
--   Crud               apicrud/basic_crud.py, class BasicCRUD: create (Prepare up to the INSERT, and
--                      Create), get (Get, with with_privacy of apicrud/geocode.py), delete (Delete), update (Update), _create_contact (Checks,
--                      with the patterns of apicrud/const.py in Patterns), update_contact (Contact),
--                      _update_related (Related), _fromdate (Dates).
--   Trash              apicrud/trashcan.py, class Trashcan: update, which restores a record, and delete,
--                      which purges it.
--   Auth               apicrud/session_auth.py, class SessionAuth: login_accepted and totp_bypass (Roles),
--                      account_login (Login).
--   Totp               apicrud/auth/totp_func.py: the loop over the backup codes (Codes) and login
--                      (Login); apicrud/auth/totp.py: generate and register (Enroll).
--   Local              apicrud/auth/local_func.py, login, and apicrud/auth/local_user.py: basic (Local),
--                      change_password and forgot_password (Password).
--   Confirmation       apicrud/messaging/confirmation.py, class Confirmation: request and confirm.
--   Storage            apicrud/media/storage.py: the metadata of a file, get_upload_url (Upload, with the
--                      names of files in Names), upload_complete (Complete), fetch_album_meta (Album),
--                      and the objects of a volume (Vendor).
--   Utils              apicrud/utils.py: identity_normalize and gen_id.
--   Examples           the witnesses and test runs, on the instances of the interfaces.
--
-- How the parts interact: a controller of Crud asks Access for the permission on the row that its
-- query finds; RateLimit reads the user of an API key from Session; Session, Mutex, RateLimit and
-- Metrics keep their state in redis. A method that changes redis or the database takes its state and
-- returns the next one. An exception is a value: `Result` where the caller sees it, and a branch where
-- the method catches it. Where another client or a failure can come in, the definition takes it as an
-- argument: whether redis answers (`up`), what happens to redis during a sleep (`world`), which
-- statements raise (`raises`, `Outcome`).
--
-- Bounds: the loops are structural recursion over lists; Mutex.acquire recurses on the attempts that
-- are left, and `decimal` on a number that bounds its digits. Two loops run on fuel: the loop over the
-- backup codes gets one round more than there are bytes, where each round skips 16 of them, and the
-- conversion of gen_id one round more than the number that it divides by 64 in each round. That both
-- suffice is proved.
--
-- Parameters, for code that is not here: encryption and JSON (Codec, with the law that decoding
-- undoes encoding), AES in CBC mode and base64 (Cipher), SHA-1, MD5, strptime, the clock, random tokens,
-- redis, the database, the cache of grants, the check of one-time passwords (pyotp), the hash of
-- passwords (passlib), the serializer of confirmation tokens (itsdangerous, with the law that a token
-- that is young enough gives its payload), JSON for the metadata of files, and Amazon S3 (boto3).
--
-- Not modelled: log messages; the rounding of floats in the notification of a grant, in a credit and
-- in a place; texts with blanks, underscores or exponents, infinity and NaN in int(text, 0) and
-- float(text); regular expressions outside the part that the policies use; what a provider of logins
-- writes to the database; validation of request bodies by connexion; the password of an LDAP server;
-- letters outside ASCII in an identity and in the name of a resource; BasicCRUD.find, the search of the
-- trashcan, the registration of accounts, the worker that processes media, messages, and the start of
-- the application.
pub mod Aes
pub mod Database
pub mod Auth
pub mod Crud
pub mod Prelude
pub mod Python
pub mod Access
pub mod Mutex
pub mod Grants
pub mod RateLimit
pub mod Metrics
pub mod Redis
pub mod Session
pub mod Trash
pub mod Totp
pub mod Utils
pub mod Storage
pub mod Confirmation
pub mod Local
mod Examples

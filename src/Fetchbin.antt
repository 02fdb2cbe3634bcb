-- ===== src/Fetchbin.antt =====
-- tools/oracle/internal/fetchbin/fetchbin.go: the pinned PostgREST binary, downloaded, checked and unpacked. The
-- file system, the network, SHA-256 and tar are the fields of a `Host`. Paths start at the
-- repository's root.
pub mod Trust
use postgrest_conformance.Base.{
  ℕ, Bool, true, false, not, ◌&&◌, List, [], ◌∷◌, ◌++◌, Option, none, some, if◌then◌else◌, is_empty,
}
use postgrest_conformance.Base.Text.{
  Bytes, codes, str_eq, has_prefix, trim_prefix, trim_space, equal_fold, is_space,
}
use postgrest_conformance.Base.Int.{ℤ, pos, int_eq}
use postgrest_conformance.Base.Result.{Result, ok, err, ◌>>=◌, require}

-- What bufio.Scanner reads of a file: its lines, and the error that ended the reading.
pub record Scan : Type 0 where
  pub lines : List Bytes
  pub failure : Option Bytes

-- An entry that `filepath.WalkDir` visits: whether it is a directory, its name and its absolute path.
pub record Entry : Type 0 where
  pub is_dir : Bool
  pub name : Bytes
  pub path : Bytes

-- The PIN file and bin.sha256 as they are opened, the platform, `client.Get` of a URL (a status and the body, which
-- may fail to be read), the error of storing a download under its name, the state of the tarball in the
-- cache where looking for it fails, SHA-256 in hexadecimal, the errors of creating the cache's
-- directories and of tar, what is found in the directory it unpacks into, and the error of `os.Chmod`.
pub record Host : Type 0 where
  pub pin : Result Bytes Scan
  pub sums : Result Bytes Scan
  pub goos : Bytes
  pub goarch : Bytes
  pub get : Bytes → Result Bytes (ℤ × Result Bytes Bytes)
  pub store_error : Bytes → Option Bytes
  pub stat_error : Option Bytes
  pub sha256_hex : Bytes → Bytes
  pub mkdir_error : Bytes → Option Bytes
  pub tar_error : Bytes → Option Bytes
  pub walk : Bytes → Result Bytes (List Entry)
  pub chmod_error : Bytes → Option Bytes

pub data FetchError : Type 0 where
  not_opened not_read not_stored not_created not_unpacked not_walked not_executable :
      Bytes → FetchError
  no_version no_pin_line unsupported_platform no_checksum mismatch no_binary : FetchError
  not_downloaded : Bytes → FetchError
  bad_status : ℤ → FetchError

abbrev pub opened {ℓ} : {A : Type ℓ} → Result Bytes A → Result FetchError A
opened (ok a) = ok a
opened (err e) = err (not_opened e)

-- what `scanner.Err()` leads to when no line was taken
abbrev pub exhausted {ℓ} : {A : Type ℓ} → Option Bytes → FetchError → Result FetchError A
exhausted none e = err e
exhausted (some failure) e = err (not_read failure)

abbrev pub pin_prefix : Bytes
pin_prefix = codes "postgrest:"

abbrev pub pinned : Bytes → Bytes
pinned line = trim_space (trim_prefix (trim_space line) pin_prefix)

-- the loop of `Version`
unfoldable pub version_in : List Bytes → Option Bytes → Result FetchError Bytes
unfolding trim_space trim_prefix has_prefix
version_in [] failure = exhausted failure no_pin_line
version_in (line ∷ lines) failure =
    if has_prefix (trim_space line) pin_prefix
    then (if is_empty (pinned line) then err no_version else ok (pinned line))
    else version_in lines failure

-- `Version`
unfoldable pub version : Host → Result FetchError Bytes
unfolding version_in
version host = opened host.pin >>= λ scan. version_in scan.lines scan.failure

abbrev pub is_platform : Bytes → Bytes → Bytes → Bytes → Bool
is_platform os arch goos goarch = str_eq goos os && str_eq goarch arch

-- the switch of `assetName`
unfoldable pub platform : Bytes → Bytes → Option Bytes
unfolding str_eq
platform goos goarch =
    if is_platform (codes "linux") (codes "amd64") goos goarch
    then some (codes "linux-static-x86-64")
    else if is_platform (codes "linux") (codes "arm64") goos goarch
    then some (codes "linux-static-aarch64")
    else if is_platform (codes "darwin") (codes "amd64") goos goarch
    then some (codes "macos-x86-64")
    else if is_platform (codes "darwin") (codes "arm64") goos goarch
    then some (codes "macos-aarch64")
    else none

abbrev pub named_asset : Bytes → Option Bytes → Result FetchError Bytes
named_asset v none = err unsupported_platform
named_asset v (some p) = ok (codes "postgrest-" ++ (v ++ (b'-' ∷ (p ++ codes ".tar.xz"))))

-- `assetName`
unfoldable pub asset_name : Bytes → Bytes → Bytes → Result FetchError Bytes
unfolding platform
asset_name v goos goarch = named_asset v (platform goos goarch)

abbrev put_byte : ℕ → List Bytes → List Bytes
put_byte c [] = (c ∷ []) ∷ []
put_byte c (w ∷ ws) = (c ∷ w) ∷ ws

-- `strings.Fields`, with a flag for a word that goes on
unfoldable pub fields_of : Bytes → Bool → List Bytes
fields_of [] inside = if inside then [] ∷ [] else []
fields_of (c ∷ s) inside =
    let outer = fields_of s false in
    let inner = fields_of s true in
    if is_space c then (if inside then [] ∷ outer else outer) else put_byte c inner

-- a line of two fields, with the sum and the name of the file
abbrev pub entry_of : List Bytes → Option (Bytes × Bytes)
entry_of (sum ∷ name ∷ []) = some (sum, name)
entry_of _ = none

abbrev pub sum_for : Bytes → Option (Bytes × Bytes) → Option Bytes
sum_for name none = none
sum_for name (some (sum, fname)) = if str_eq fname name then some sum else none

abbrev pub or_later : Option Bytes → Result FetchError Bytes → Result FetchError Bytes
or_later none later = later
or_later (some sum) later = ok sum

-- the loop of `lookupChecksum`
unfoldable pub checksum_in : List Bytes → Option Bytes → Bytes → Result FetchError Bytes
unfolding fields_of str_eq
checksum_in [] failure name = exhausted failure no_checksum
checksum_in (line ∷ lines) failure name =
    or_later (sum_for name (entry_of (fields_of line false))) (checksum_in lines failure name)

-- `lookupChecksum`
unfoldable pub lookup_checksum : Host → Bytes → Result FetchError Bytes
unfolding checksum_in
lookup_checksum host name = opened host.sums >>= λ scan. checksum_in scan.lines scan.failure name

-- `verifyChecksum` of a tarball with this name and content
unfoldable pub verify_checksum : Host → Bytes → Bytes → Result FetchError (Unit {0})
unfolding lookup_checksum equal_fold
verify_checksum host name content = lookup_checksum host name >>= λ want.
    (if equal_fold (host.sha256_hex content) want then ok tt else err mismatch)

abbrev pub stored : Option Bytes → Bytes → Result FetchError Bytes
stored none content = ok content
stored (some e) content = err (not_stored e)

abbrev pub body_stored : Host → Result Bytes Bytes → Result FetchError Bytes
body_stored host (err e) = err (not_downloaded e)
body_stored host (ok content) = stored (host.store_error content) content

abbrev pub responded : Host → Result Bytes (ℤ × Result Bytes Bytes) → Result FetchError Bytes
responded host (err e) = err (not_downloaded e)
responded host (ok (status, body)) =
    if int_eq status (pos 200) then body_stored host body else err (bad_status status)

-- `download`: what stands under the tarball's name when it ends well
unfoldable pub download : Host → Bytes → Result FetchError Bytes
download host url = responded host (host.get url)

-- `findBinary` on the entries in the order of the walk
unfoldable pub binary_in : List Entry → Result FetchError Bytes
unfolding str_eq
binary_in [] = err no_binary
binary_in (e ∷ es) =
    if not e.is_dir && str_eq e.name (codes "postgrest") then ok e.path else binary_in es

abbrev pub walked : Result Bytes (List Entry) → Result FetchError Bytes
walked (err e) = err (not_walked e)
walked (ok es) = binary_in es

-- `findBinary`
unfoldable pub find_binary : Host → Bytes → Result FetchError Bytes
unfolding binary_in
find_binary host dir = walked (host.walk dir)

-- the error of an optional message
abbrev pub unless_failed : Option Bytes → (Bytes → FetchError) → Result FetchError (Unit {0})
unless_failed none wrap = ok tt
unless_failed (some e) wrap = err (wrap e)

-- How a fetch ends: its answer, the tarball in the cache, and the contents that tar was run on.
pub record Fetched : Type 0 where
  pub answer : Result FetchError Bytes
  pub cached : Option Bytes
  pub unpacked : List Bytes

abbrev pub ended : Option Bytes → FetchError → Fetched
ended cached e = record { answer = err e; cached = cached; unpacked = [] }

-- behind tar
unfoldable pub finish_fetch : Host → Bytes → Result FetchError Bytes
unfolding find_binary
finish_fetch host dir = find_binary host dir >>= λ path.
    (unless_failed (host.chmod_error path) not_executable >>= λ _. ok path)

-- the tarball unpacked into its directory
unfoldable pub unpack_into : Host → Bytes → Bytes → Option Bytes → Fetched
unfolding finish_fetch
unpack_into host dir content none = record {
  answer = unless_failed (host.tar_error content) not_unpacked >>= λ _. finish_fetch host dir;
  cached = some content;
  unpacked = content ∷ [];
}
unpack_into host dir content (some e) = ended (some content) (not_created e)

abbrev pub dest_dir : Bytes → Bytes
dest_dir v = codes "tools/oracle/.cache/postgrest-" ++ v

abbrev pub when_verified : Host → Bytes → Bytes → Result FetchError (Unit {0}) → Fetched
when_verified host v content (err e) = ended (some content) e
when_verified host v content (ok _) =
    unpack_into host (dest_dir v) content (host.mkdir_error (dest_dir v))

abbrev pub when_cached : Host → Bytes → Bytes → Result FetchError Bytes → Fetched
when_cached host v asset (err e) = ended none e
when_cached host v asset (ok content) =
    when_verified host v content (verify_checksum host asset content)

-- `releaseBaseURL` and what follows it
unfoldable pub asset_url : Bytes → Bytes → Bytes
asset_url v asset =
    codes "https://github.com/PostgREST/postgrest/releases/download"
    ++ (b'/' ∷ (v ++ (b'/' ∷ asset)))

-- the tarball that is in the cache, or is downloaded into it
abbrev pub obtain : Host → Bytes → Bytes → Option Bytes → Option Bytes → Fetched
obtain host v asset (some content) failure = when_cached host v asset (ok content)
obtain host v asset none (some e) = ended none (not_opened e)
obtain host v asset none none = when_cached host v asset (download host (asset_url v asset))

abbrev pub when_named : Host → Option Bytes → Result FetchError (Bytes × Bytes) → Fetched
when_named host cache (err e) = ended cache e
when_named host cache (ok (v, asset)) = obtain host v asset cache host.stat_error

-- the version and the asset, with the cache's directory made
unfoldable pub named : Host → Result FetchError (Bytes × Bytes)
unfolding version asset_name
named host = version host >>= λ v.
    (asset_name v host.goos host.goarch >>= λ asset.
    (unless_failed (host.mkdir_error (codes "tools/oracle/.cache")) not_created >>= λ _.
    ok (v, asset)))

-- `Fetch`, of the tarball that is in the cache
unfoldable pub fetch : Host → Option Bytes → Fetched
unfolding named verify_checksum download unpack_into asset_url
fetch host cache = when_named host cache (named host)

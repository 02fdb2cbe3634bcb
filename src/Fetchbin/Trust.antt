-- ===== src/Fetchbin/Trust.antt =====
-- Lemmas on what fetchbin.go unpacks.
use postgrest_conformance.Base.{
  Bool, true, false, ◌&&◌, ◌||◌, List, [], ◌∷◌, ◌≡◌, refl, Option, none, some, any, All, Bool-cases,
  inl, inr, arith, ap, ◌⊎◌, not, is_empty,
}
use postgrest_conformance.Base.Text.{Bytes, str_eq, equal_fold}
use postgrest_conformance.Base.Result.{Result, ok, err, is_ok, Result-cases}
use postgrest_conformance.Fetchbin.{
  Host, Scan, Fetched, FetchError, fields_of, entry_of, sum_for, checksum_in, lookup_checksum,
  verify_checksum, when_verified, when_cached, unpack_into, obtain, when_named, named, fetch,
  download, asset_url, dest_dir, or_later,
}

abbrev matches : Bytes → Bytes → Option (Bytes × Bytes) → Bool
matches hash name none = false
matches hash name (some (sum, fname)) = str_eq fname name && equal_fold hash sum

-- A line of two fields, a sum and this name, whose sum is the hash.
abbrev pub vouches : Bytes → Bytes → Bytes → Bool
vouches hash name line = matches hash name (entry_of (fields_of line false))

abbrev scanned : Result Bytes Scan → List Bytes
scanned (ok scan) = scan.lines
scanned (err e) = []

-- Some line of the checksum file vouches for a content under this name.
abbrev pub is_vouched : Host → Bytes → Bytes → Bool
is_vouched host name content = any (vouches (host.sha256_hex content) name) (scanned host.sums)

abbrev sum_in : Bytes → Result FetchError Bytes → Bytes
sum_in d (ok sum) = sum
sum_in d (err e) = d

here_or_later :
    (hash name : Bytes) (o : Option (Bytes × Bytes)) (later : Result FetchError Bytes)
    (want : Bytes)
    → or_later (sum_for name o) later ≡ ok want
    → equal_fold hash want ≡ true
    → (matches hash name o ≡ true) ⊎ (later ≡ ok want)
here_or_later hash name none later want e same = inr e
here_or_later hash name (some (sum, fname)) later want e same =
    elim (Bool-cases (str_eq fname name)) [
      | inr other ↦ inr (rw other at e)
      | inl mine ↦
          let its : sum ≡ want = ap (sum_in sum) (rw mine at e) in inl (rw (mine, its) same)
    ]

vouched_by :
    (hash name : Bytes) (lines : List Bytes) (failure : Option Bytes) (want : Bytes)
    → checksum_in lines failure name ≡ ok want
    → equal_fold hash want ≡ true
    → any (vouches hash name) lines ≡ true
unfolding checksum_in
vouched_by hash name [] none want e same = cc
vouched_by hash name [] (some f) want e same = cc
vouched_by hash name (line ∷ lines) failure want e same =
    elim (here_or_later hash name (entry_of (fields_of line false)) (checksum_in lines failure name)
      want e same) [
        | inl here ↦ rw here refl
        | inr later ↦ ground (arith, vouched_by hash name lines failure want later same)
      ]

verify-is_vouched :
    (host : Host) (name content : Bytes)
    → is_ok (verify_checksum host name content) ≡ true
    → is_vouched host name content ≡ true
unfolding verify_checksum lookup_checksum
verify-is_vouched host name content h = elim (Result-cases host.sums) [
  | inr (e, closed) ↦ let bad = rw closed at h in cc
  | inl (scan, read) ↦ elim (Result-cases (checksum_in scan.lines scan.failure name)) [
    | inr (e, missing) ↦ let bad = rw (read, missing) at h in cc
    | inl (want, found) ↦ elim (Bool-cases (equal_fold (host.sha256_hex content) want)) [
      | inl same ↦
          rw read
            (vouched_by (host.sha256_hex content) name scan.lines scan.failure want found same)
      | inr differs ↦ let bad = rw (read, found, differs) at h in cc
    ]
  ]
]

-- The content is vouched for under the asset's name, where the asset is known.
abbrev pub is_trusted : Host → Result FetchError (Bytes × Bytes) → Bytes → Bool
is_trusted host (err e) content = false
is_trusted host (ok (v, asset)) content = is_vouched host asset content

-- The tarball in the cache is kept, where there is one.
abbrev pub Kept : Option Bytes → Option Bytes → Type 0
Kept none after = Unit
Kept (some content) after = after ≡ some content

-- An end that unpacked only contents that pass a test, at least one if it is a good end.
abbrev pub Sound : (Bytes → Bool) → Fetched → Type 0
Sound p f =
    All (λ content. p content ≡ true) f.unpacked
    × ((not (is_ok f.answer) || not (is_empty f.unpacked)) ≡ true)

unpack_into-Sound :
    (p : Bytes → Bool) (host : Host) (dir content : Bytes) (failure : Option Bytes)
    → p content ≡ true
    → Sound p (unpack_into host dir content failure)
unfolding unpack_into
unpack_into-Sound p host dir content none h = ((h, tt), ground arith)
unpack_into-Sound p host dir content (some e) h = (tt, refl)

cached-unpack_into :
    (host : Host) (dir content : Bytes) (failure : Option Bytes)
    → (unpack_into host dir content failure).cached ≡ some content
unfolding unpack_into
cached-unpack_into host dir content none = refl
cached-unpack_into host dir content (some e) = refl

when_verified-Sound :
    (host : Host) (v asset content : Bytes)
    → Sound
        (is_vouched host asset)
        (when_verified host v content (verify_checksum host asset content))
      × ((when_verified host v content (verify_checksum host asset content)).cached ≡ some content)
when_verified-Sound host v asset content =
    elim (Result-cases (verify_checksum host asset content)) [
      | inr (e, refused) ↦ rw refused ((tt, refl), refl)
      | inl (u, passed) ↦
          let good : is_vouched host asset content ≡ true =
            verify-is_vouched host asset content (rw passed refl) in
          rw passed (
            unpack_into-Sound (is_vouched host asset) host (dest_dir v) content
                (host.mkdir_error (dest_dir v)) good,
            cached-unpack_into host (dest_dir v) content (host.mkdir_error (dest_dir v)),
          )
    ]

when_cached-Sound :
    (host : Host) (v asset : Bytes) (came : Result FetchError Bytes)
    → Sound (is_vouched host asset) (when_cached host v asset came)
when_cached-Sound host v asset (err e) = (tt, refl)
when_cached-Sound host v asset (ok content) = (when_verified-Sound host v asset content).0

obtain-Sound :
    (host : Host) (v asset : Bytes) (cache failure : Option Bytes)
    → Sound (is_vouched host asset) (obtain host v asset cache failure)
      × Kept cache (obtain host v asset cache failure).cached
obtain-Sound host v asset (some content) failure = when_verified-Sound host v asset content
obtain-Sound host v asset none (some e) = ((tt, refl), tt)
obtain-Sound host v asset none none =
    (when_cached-Sound host v asset (download host (asset_url v asset)), tt)

when_named-Sound :
    (host : Host) (cache : Option Bytes) (n : Result FetchError (Bytes × Bytes))
    → Sound (is_trusted host n) (when_named host cache n)
      × Kept cache (when_named host cache n).cached
when_named-Sound host none (err e) = ((tt, refl), tt)
when_named-Sound host (some content) (err e) = ((tt, refl), refl)
when_named-Sound host cache (ok (v, asset)) = obtain-Sound host v asset cache host.stat_error

-- Whatever the network serves and the cache holds, each content that `Fetch` runs tar on has a hash that a line
-- of the checksum file gives for the pinned version's asset; a fetch that ends well has unpacked one; and a
-- tarball that is in the cache stays there as it is.
pub fetch-Sound :
    (host : Host) (cache : Option Bytes)
    → Sound (is_trusted host (named host)) (fetch host cache) × Kept cache (fetch host cache).cached
unfolding fetch
fetch-Sound host cache = when_named-Sound host cache (named host)

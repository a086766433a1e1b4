-- ===== src/KeyMgr/Cache.antt =====
-- internal/keymgr: the two key caches (repo_cache.go) and the operations of KeyManager that use them
-- (keymgr.go). P is the type of private keys. The KMS requests, the parser and the signer of the
-- secp256k1 library and the key store in S3 are parameters; `now` is the reading of the clock. A cache
-- is `none` once Stop has set it to nil, and using it then is a panic. The lock makes the cache
-- operations single steps; Has reads under the lock and sets after it.
pub mod Genuine
pub mod Signing
pub mod Stopped
mod Examples
use referendum_services.Prelude.{
  ℕ, ◌+◌, String, String_discrete, List, [], ◌∷◌, Option, none, some, Bool, true, false, ltb,
  is_some, if◌then◌else◌,
}
use referendum_services.Prelude.Dict.{Dict, get, put, del}

abbrev pub Bytes : Type 0
Bytes = List ℕ

pub record Entry (V : Type 0) : Type 0 where
  pub value : V
  pub expires_at : ℕ

pub data KeyError : Type 0 where
  decrypt_failed bad_key no_signing_key sign_failed not_stored encrypt_failed not_written : KeyError

-- A call returns a value or an error, or panics.
pub data Outcome (A : Type 0) : Type 0 where
  done : A → Outcome A
  failed : KeyError → Outcome A
  panicked : Outcome A

-- `repoKeyCache`: the caches and whether the stop channel is closed.
pub record KeyCache (P : Type 0) : Type 0 where
  pub encrypt : Option (Dict String (Entry Bytes))
  pub sign : Option (Dict String (Entry P))
  pub encrypt_timeout : ℕ
  pub sign_timeout : ℕ
  pub stopped : Bool

-- The KMS (by DID), the key library, and the key store.
pub record Keys (P : Type 0) : Type 0 where
  pub kms_encrypt : String → Bytes → Option Bytes
  pub kms_decrypt : String → Bytes → Option Bytes
  pub parse_key : Bytes → Option P
  pub key_bytes : P → Bytes
  pub sign_with : P → Bytes → Option Bytes

abbrev pub Files : Type 0
Files = Dict String Bytes

module _ {P : Type 0} (keys : Keys P) where
  -- `newRepoKeyCache`.
  abbrev pub new_key_cache : ℕ → ℕ → KeyCache P
  new_key_cache eto sto = record {
    encrypt = some [];
    sign = some [];
    encrypt_timeout = eto;
    sign_timeout = sto;
    stopped = false;
  }

  abbrev pub with_caches :
      {A : Type 0}
      → KeyCache P
      → (Dict String (Entry Bytes) → Dict String (Entry P) → Outcome A × KeyCache P)
      → Outcome A × KeyCache P
  with_caches kc f = elim kc.encrypt [
    | none ↦ (panicked, kc)
    | some ec ↦ elim kc.sign [ none ↦ (panicked, kc) | some sc ↦ f ec sc ]
  ]

  abbrev pub add_signing :
      ℕ → String → KeyCache P → Dict String (Entry P) → Option P → Outcome Unit × KeyCache P
  add_signing now did kc sc none = (failed bad_key, kc)
  add_signing now did kc sc (some sk) = (
    done tt,
    record kc {
      sign =
          some (
            put String_discrete sc did (record { value = sk; expires_at = now + kc.sign_timeout }));
    },
  )

  abbrev pub add_keys : ℕ → String → Bytes → KeyCache P → Option Bytes → Outcome Unit × KeyCache P
  add_keys now did key kc none = (failed decrypt_failed, kc)
  add_keys now did key kc (some pt) = with_caches kc (λ ec sc.
      add_signing now did
        (record kc {
          encrypt = some (
              put String_discrete ec did
                (record { value = key; expires_at = now + kc.encrypt_timeout }));
        })
        sc (keys.parse_key pt))

  -- `Set`: a key that does not parse leaves its encrypted form in the cache.
  unfoldable pub set : ℕ → String → Bytes → KeyCache P → Outcome Unit × KeyCache P
  unfolding put
  set now did key kc = add_keys now did key kc (keys.kms_decrypt did key)

  abbrev pub is_done : {A : Type 0} → Outcome A × KeyCache P → Outcome Bool × KeyCache P
  is_done (done a, kc) = (done true, kc)
  is_done (failed x, kc) = (done false, kc)
  is_done (panicked, kc) = (panicked, kc)

  abbrev pub refreshed : ℕ → String → KeyCache P → Option (Entry Bytes) → Outcome Bool × KeyCache P
  refreshed now did kc none = (done false, kc)
  refreshed now did kc (some ek) = is_done (set now did ek.value kc)

  -- `Has`: a signing key, or one made again from the encrypted key.
  unfoldable pub has : ℕ → String → KeyCache P → Outcome Bool × KeyCache P
  unfolding get set
  has now did kc = with_caches kc (λ ec sc.
      if is_some (get String_discrete sc did)
      then (done true, kc)
      else refreshed now did kc (get String_discrete ec did))

  abbrev pub removed : Bool → KeyCache P → Outcome Unit × KeyCache P
  removed true kc = (done tt, kc)
  removed false kc = (failed no_signing_key, kc)

  -- `Remove`.
  unfoldable pub remove : String → KeyCache P → Outcome Unit × KeyCache P
  unfolding get del
  remove did kc = with_caches kc (λ ec sc.
      removed (is_some (get String_discrete sc did)) (record kc {
        encrypt = some (del String_discrete ec did);
        sign = some (del String_discrete sc did);
      }))

  abbrev pub signature : Option Bytes → Outcome Bytes
  signature none = failed sign_failed
  signature (some sig) = done sig

  abbrev pub signed : Bytes → Option (Entry P) → Outcome Bytes
  signed cmt none = failed no_signing_key
  signed cmt (some sk) = signature (keys.sign_with sk.value cmt)

  -- `Sign`, which only reads the signing keys.
  unfoldable pub sign_commit : String → Bytes → KeyCache P → Outcome Bytes
  unfolding get
  sign_commit did cmt kc = elim kc.sign [
    | none ↦ panicked
    | some sc ↦ signed cmt (get String_discrete sc did)
  ]

  -- `Stop`: closing the channel a second time panics; both caches end up nil.
  unfoldable pub stop : KeyCache P → Outcome Unit × KeyCache P
  stop kc =
      if kc.stopped
      then (panicked, kc)
      else (done tt, record kc { encrypt = none; sign = none; stopped = true })

  -- The rounds over the two maps in a tick of the clean-up: an expired encrypted key goes with its
  -- signing key, an expired signing key alone.
  abbrev pub expire_one :
      {V : Type 0}
      → ℕ
      → String
      → Entry V
      → Dict String (Entry Bytes) × Dict String (Entry P)
      → Dict String (Entry Bytes) × Dict String (Entry P)
  expire_one now did e (ec, sc) =
      if ltb e.expires_at now
      then (del String_discrete ec did, del String_discrete sc did)
      else (ec, sc)

  unfoldable pub expire_encrypted :
      ℕ
      → Dict String (Entry Bytes)
      → Dict String (Entry Bytes) × Dict String (Entry P)
      → Dict String (Entry Bytes) × Dict String (Entry P)
  unfolding del
  expire_encrypted now [] s = s
  expire_encrypted now ((did, e) ∷ es) s = expire_encrypted now es (expire_one now did e s)

  unfoldable pub expire_signing :
      ℕ → Dict String (Entry P) → Dict String (Entry P) → Dict String (Entry P)
  unfolding del
  expire_signing now [] sc = sc
  expire_signing now ((did, e) ∷ es) sc =
      expire_signing now es (if ltb e.expires_at now then del String_discrete sc did else sc)

  abbrev pub swept :
      ℕ → KeyCache P → Dict String (Entry Bytes) × Dict String (Entry P) → Outcome Unit × KeyCache P
  swept now kc (ec, sc) =
      (done tt, record kc { encrypt = some ec; sign = some (expire_signing now sc sc) })

  -- A tick of `cleanupExpiredKeys`, before Stop.
  unfoldable pub cleanup_tick : ℕ → KeyCache P → Outcome Unit × KeyCache P
  unfolding expire_encrypted expire_signing
  cleanup_tick now kc =
      if kc.stopped
      then (done tt, kc)
      else with_caches kc (λ ec sc. swept now kc (expire_encrypted now ec (ec, sc)))

  abbrev pub fetched : ℕ → String → KeyCache P → Option Bytes → Outcome Unit × KeyCache P
  fetched now did kc none = (failed not_stored, kc)
  fetched now did kc (some ek) = set now did ek kc

  abbrev pub unless_has : ℕ → Files → String → Outcome Bool × KeyCache P → Outcome Unit × KeyCache P
  unless_has now files did (done true, kc) = (done tt, kc)
  unless_has now files did (done false, kc) = fetched now did kc (get String_discrete files did)
  unless_has now files did (failed x, kc) = (failed x, kc)
  unless_has now files did (panicked, kc) = (panicked, kc)

  -- `UpdateKeyCache`: the key store is asked if the caches have no key.
  unfoldable pub update_key_cache : ℕ → Files → String → KeyCache P → Outcome Unit × KeyCache P
  unfolding has
  update_key_cache now files did kc = unless_has now files did (has now did kc)

  abbrev pub then_sign : String → Bytes → Outcome Unit × KeyCache P → Outcome Bytes × KeyCache P
  then_sign did cmt (done u, kc) = (sign_commit did cmt kc, kc)
  then_sign did cmt (failed x, kc) = (failed x, kc)
  then_sign did cmt (panicked, kc) = (panicked, kc)

  unfoldable pub sign_for_actor :
      ℕ → Files → String → Bytes → KeyCache P → Outcome Bytes × KeyCache P
  unfolding update_key_cache sign_commit
  sign_for_actor now files did cmt kc = then_sign did cmt (update_key_cache now files did kc)

  -- `InvalidateKeys`: an error of Remove is logged.
  unfoldable pub invalidate_keys : String → KeyCache P → KeyCache P
  unfolding remove
  invalidate_keys did kc = (remove did kc).1

  abbrev pub created : String → Files → Bool → Option Bytes → Outcome Unit × Files
  created did files stored none = (failed encrypt_failed, files)
  created did files false (some ek) = (failed not_written, files)
  created did files true (some ek) = (done tt, put String_discrete files did ek)

  -- `CreateEncryptedKey`; the Boolean is the answer of `WriteNewKey`, whether the file is stored.
  unfoldable pub create_encrypted_key : Bool → String → P → Files → Outcome Unit × Files
  unfolding put
  create_encrypted_key stored did sk files =
      created did files stored (keys.kms_encrypt did (keys.key_bytes sk))

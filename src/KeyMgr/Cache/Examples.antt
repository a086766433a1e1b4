-- ===== src/KeyMgr/Cache/Examples.antt =====
-- Runs of the key manager: the KMS puts a byte in front, a key is its byte, a signature is the key
-- before the commit.
use referendum_services.Prelude.{
  ℕ, String, List, [], ◌∷◌, Option, none, some, true, false, ◌≡◌, refl,
}
use referendum_services.Prelude.Tests.{String_discrete}
use referendum_services.Prelude.Dict.{Dict}
use referendum_services.KeyMgr.Cache.{
  Bytes, Entry, KeyCache, Keys, Files, done, panicked, new_key_cache, signature, stop,
  sign_for_actor, invalidate_keys, create_encrypted_key,
}
use referendum_services.KeyMgr.Cache.Genuine.{IsKeyOf}
use referendum_services.KeyMgr.Cache.Signing.{
  Event, signing, sign_for_actor-IsKeyOf, create-sign_for_actor, after_events,
}
use referendum_services.KeyMgr.Cache.Stopped.{stop-panicked}

abbrev tail_of : Bytes → Option Bytes
tail_of [] = none
tail_of (b ∷ bs) = some bs

abbrev key_in : Bytes → Option ℕ
key_in (k ∷ []) = some k
key_in _ = none

abbrev toy_keys : Keys ℕ
toy_keys = record {
  kms_encrypt = λ did pt. some (9 ∷ pt);
  kms_decrypt = λ did ek. tail_of ek;
  parse_key = key_in;
  key_bytes = λ k. k ∷ [];
  sign_with = λ k cmt. some (k ∷ cmt);
}

abbrev one_file : Files
one_file = ("did:plc:a", 9 ∷ 5 ∷ []) ∷ []

abbrev history : List (Event toy_keys)
history = signing 0 one_file "did:plc:a" [] ∷ []

signs :
    (sign_for_actor toy_keys 1 one_file "did:plc:a"
      (7 ∷ [])
      (after_events toy_keys history (new_key_cache toy_keys 10 20))).0
    ≡ done (5 ∷ 7 ∷ [])
unfolding sign_for_actor String_discrete
signs = refl

sign_for_actor-IsKeyOf_example :
    (sk : ℕ) × IsKeyOf toy_keys "did:plc:a" sk × (some (sk ∷ 7 ∷ []) ≡ some (5 ∷ 7 ∷ []))
sign_for_actor-IsKeyOf_example =
    sign_for_actor-IsKeyOf toy_keys 10 20 history 1 one_file "did:plc:a" (7 ∷ []) (5 ∷ 7 ∷ []) signs

create-sign_for_actor_example :
    (sign_for_actor toy_keys 3
      (create_encrypted_key toy_keys true "did:plc:b" 6 one_file).1
      "did:plc:b"
      (7 ∷ [])
      (invalidate_keys toy_keys "did:plc:b" (new_key_cache toy_keys 10 20))).0
    ≡ signature toy_keys (some (6 ∷ 7 ∷ []))
create-sign_for_actor_example =
    create-sign_for_actor toy_keys "did:plc:b" 6 one_file (9 ∷ 6 ∷ []) (7 ∷ []) 3
      (new_key_cache toy_keys 10 20) [] [] refl refl refl refl refl

stop-panicked_example :
    ((stop toy_keys (stop toy_keys (new_key_cache toy_keys 10 20)).1).0 ≡ panicked)
    × (false ≡ false
        → (sign_for_actor toy_keys 3 one_file "did:plc:a" []
            (stop toy_keys (new_key_cache toy_keys 10 20)).1).0
          ≡ panicked)
stop-panicked_example =
    stop-panicked toy_keys (new_key_cache toy_keys 10 20) 3 one_file "did:plc:a" []

abbrev old_entry : Dict String (Entry Bytes)
old_entry = ("did:plc:a", record { value = 9 ∷ 5 ∷ []; expires_at = 2 }) ∷ []

abbrev new_entry : Dict String (Entry ℕ)
new_entry = ("did:plc:b", record { value = 6; expires_at = 8 }) ∷ []

abbrev mixed : KeyCache ℕ
mixed = record {
  encrypt = some old_entry;
  sign = some new_entry;
  encrypt_timeout = 10;
  sign_timeout = 20;
  stopped = false;
}

-- ===== src/Server/Clients/Expiry.antt =====
-- What active expiration keeps of the stores.
use valkeydb.Base.{
  ℕ, zero, suc, ◌+◌, Bool, true, false, Option, List, Str, length, get_elem?, ◌==◌, Option-cases,
  Bool-cases, inl, inr, if◌then◌else◌,
}
use valkeydb.Base.Map.{get, delete, keys}
use valkeydb.Item.{ExpirationConfig, get_max_sample_rounds, is_expired}
use valkeydb.Dict
use valkeydb.Dict.{Dict, Samples, sample, samples, int_n}
use valkeydb.SetStore

-- What a deletion keeps, active expiration keeps.
module _ {κ} (C : Dict → Type κ) (keep : (key : Str) (d : Dict) → C d → C (delete key d)) where
  sample-keeps :
      (s : Samples) (names : List Str) (i j checked expired : ℕ) (d : Dict)
      → C d
      → C (sample s names i j (checked, expired, d)).2
  unfolding sample
  sample-keeps s names i j checked expired d h =
      elim (Option-cases (get_elem? names (int_n s i j (length names)))) [
        | inl e ↦ rw (e, sample) h
        | inr (key, e) ↦ elim (Option-cases (get key d)) [
          | inl f ↦ rw (e, f, sample) h
          | inr (item, f) ↦ elim (Bool-cases (is_expired item (s.clock i j))) [
            | inl x ↦ rw (e, f, x, sample) (keep key d h)
            | inr x ↦ rw (e, f, x, sample) h
          ]
        ]
      ]

  samples-keeps :
      (s : Samples) (names : List Str) (i n j : ℕ) (acc : ℕ × ℕ × Dict)
      → C acc.2
      → C (samples s names i n j acc).2
  unfolding samples
  samples-keeps s names i zero j acc h = h
  samples-keeps s names i (suc n) j (checked, expired, d) h =
      samples-keeps s names i n (j + 1) _ (sample-keeps s names i j checked expired d h)

  one_of : (b : Bool) (d d' : Dict) → C d → C d' → C (if b then d else d')
  one_of true d d' h h' = h
  one_of false d d' h h' = h'

  dict_rounds-keeps :
      (config : Option ExpirationConfig) (s : Samples) (n i : ℕ) (d : Dict)
      → C d
      → C (Dict.rounds config s n i d)
  unfolding Dict.rounds
  dict_rounds-keeps config s zero i d h = h
  dict_rounds-keeps config s (suc n) i d h =
      let left = samples-keeps s (keys d) i _ 0 (0, 0, d) h in
      one_of _ _ _ left (dict_rounds-keeps config s n (i + 1) _ left)

  set_rounds-keeps :
      (config : Option ExpirationConfig) (s : Samples) (n i : ℕ) (d : Dict)
      → C d
      → C (SetStore.rounds config s n i d)
  unfolding SetStore.rounds
  set_rounds-keeps config s zero i d h = h
  set_rounds-keeps config s (suc n) i d h =
      let left = samples-keeps s (keys d) i _ 0 (0, 0, d) h in
      one_of _ _ _ h (one_of _ _ _ left (set_rounds-keeps config s n (i + 1) _ left))

  pub dict_active_expire-keeps :
      (config : Option ExpirationConfig) (s : Samples) (d : Dict)
      → C d
      → C (Dict.active_expire config s d)
  unfolding Dict.active_expire
  dict_active_expire-keeps config s d h =
      one_of (length d == 0) _ _ h (dict_rounds-keeps config s (get_max_sample_rounds config) 0 d h)

  pub set_active_expire-keeps :
      (config : Option ExpirationConfig) (s : Samples) (d : Dict)
      → C d
      → C (SetStore.active_expire config s d)
  unfolding SetStore.active_expire
  set_active_expire-keeps config s d h =
      one_of (length d == 0) _ _ h (set_rounds-keeps config s (get_max_sample_rounds config) 0 d h)

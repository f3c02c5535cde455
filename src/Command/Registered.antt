-- ===== src/Command/Registered.antt =====
-- What holds of every command that is registered holds of what is found.
use valkeydb.Base.{
  ◌≡◌, subst, some, List, [], ◌∷◌, Str, arith, eq_str, eq_str_iff, to_upper, Bool-cases, inl, inr,
}
use valkeydb.Base.Map.{get, get-put}
use valkeydb.Command.{Handler}
use valkeydb.Command.Registry.{Registry, register, register_all}

-- A property of a handler under its name.
module _ (P : Str → Handler → Type 0) where
  abbrev pub AllHold : List (Str × Handler) → Type 0
  AllHold [] = Unit
  AllHold ((name, h) ∷ rest) = P (to_upper name) h × AllHold rest

  abbrev pub Holds : Registry → Type 0
  Holds r = (name : Str) (h : Handler) → get name r ≡ some h → P name h

  register-Holds :
      (name : Str) (h : Handler) (r : Registry)
      → P (to_upper name) h
      → Holds r
      → Holds (register name h r)
  unfolding register
  register-Holds name h r p held j h' e = elim (Bool-cases (eq_str (to_upper name) j)) [
    | inl here ↦
        let same : h ≡ h' = ground (arith, e, here, get-put (to_upper name) j h r) in
        subst (P j) same (subst (λ n. P n h) ((eq_str_iff (to_upper name) j).0 here) p)
    | inr other ↦ held j h' (ground (arith, e, other, get-put (to_upper name) j h r))
  ]

  pub register_all-Holds :
      (l : List (Str × Handler)) (r : Registry) → AllHold l → Holds r → Holds (register_all l r)
  unfolding register_all
  register_all-Holds [] r k held = held
  register_all-Holds ((name, h) ∷ rest) r k held =
      register_all-Holds rest (register name h r) k.1 (register-Holds name h r k.0 held)

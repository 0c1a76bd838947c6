-- ===== src/Dict/Distinct.antt =====
-- A Dict that a program builds has each key once.
use g_rpc_playground.Prelude.{
  String, ◌≡◌, ◌==◌, refl, Bool-cases, inl, inr, none, [], ◌∷◌, arith, eq_iff,
}
use g_rpc_playground.Dict.{Dict, get, put, get-put}

module _ {ℓ} {V : Type ℓ} where
  abbrev pub IsDistinct : Dict V → Type ℓ
  IsDistinct [] = Unit
  IsDistinct ((k, v) ∷ m) = (get m k ≡ none) × IsDistinct m

  -- A property of every entry, as a key and its value.
  abbrev pub Entries {κ} : (String → V → Type κ) → Dict V → Type κ
  Entries P [] = Unit
  Entries P ((k, v) ∷ m) = P k v × Entries P m

  pub put-IsDistinct : (m : Dict V) (k : String) (v : V) → IsDistinct m → IsDistinct (put m k v)
  unfolding get put
  put-IsDistinct [] k v h = (refl, tt)
  put-IsDistinct ((j, w) ∷ m) k v h = elim (Bool-cases (j == k)) [
    | inl e ↦ rw e (rw (← (eq_iff j k).0 e) h)
    | inr e ↦ rw e (
      rw (get-put m k v j) (elim (Bool-cases (k == j)) [
        | inl e' ↦ ground (arith, eq_iff j k, eq_iff k j)
        | inr e' ↦ rw e' h.0
      ]),
      put-IsDistinct m k v h.1,
    )
  ]

  pub put-Entries {κ} :
      (P : String → V → Type κ) (m : Dict V) (k : String) (v : V)
      → P k v
      → Entries P m
      → Entries P (put m k v)
  unfolding put
  put-Entries P [] k v p h = (p, tt)
  put-Entries P ((j, w) ∷ m) k v p h = elim (Bool-cases (j == k)) [
    | inl e ↦ rw e (p, h.1)
    | inr e ↦ rw e (h.0, put-Entries P m k v p h.1)
  ]

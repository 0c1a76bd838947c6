-- ===== src/Laptops/Store/Search.antt =====
-- The loop of Search against the list of the laptops that a filter lets through.
use mathlib.Core.Option.{Option-elim}
use mathlib.Core.List.Perm
use mathlib.Core.List.{Perm, filter_map, append_assoc, append-nil}
use g_rpc_playground.Prelude.{
  ℕ, suc, String, ◌≡◌, refl, ◌∙◌, ap, ◌⊎◌, inl, inr, Bool, true, false, Option, none, some, List,
  [], ◌∷◌, ◌++◌, map, if◌then◌else◌, Bool-cases,
}
use g_rpc_playground.Status.{Error, CtxErr, alive}
use g_rpc_playground.Exec.{ret, fail, Exec}
use g_rpc_playground.Pb.Float.{Float64}
use g_rpc_playground.Pb.Specs.{Laptop, Filter}
use g_rpc_playground.Laptops.Qualify.{is_qualified}
use g_rpc_playground.Laptops.Store.{Copier, Copies, is_over, visit, search_loop}
use g_rpc_playground.Laptops.Store.Laws.{deep_copy_lem}

abbrev keep : {A : Type 0} → Bool → A → List A → List A
keep true a others = a ∷ others
keep false a others = others

module _ {F : Type 0} ⦃f : Float64 F⦄ where
  -- The laptops among the entries that the filter lets through, in the order of the entries.
  unfoldable pub picked : Option (Filter F) → List (String × Laptop F) → List (Laptop F)
  picked filter [] = []
  picked filter ((id, l) ∷ rest) = keep (is_qualified filter (some l)) l (picked filter rest)

  pick : Option (Filter F) → String × Laptop F → Option (Laptop F)
  pick filter (id, l) = if is_qualified filter (some l) then some l else none

  picked-eq-filter_map :
      (filter : Option (Filter F)) (es : List (String × Laptop F))
      → picked filter es ≡ filter_map (pick filter) es
  unfolding picked pick filter_map Option-elim
  picked-eq-filter_map filter [] = refl
  picked-eq-filter_map filter ((id, l) ∷ rest) = elim (Bool-cases (is_qualified filter (some l))) [
    | inl e ↦ rw (e, picked-eq-filter_map filter rest)
    | inr e ↦ rw (e, picked-eq-filter_map filter rest)
  ]

  -- Two orders of the same entries give the same laptops, in some other order.
  pub picked-perm :
      (filter : Option (Filter F)) {es es' : List (String × Laptop F)}
      → Perm es es'
      → Perm (picked filter es) (picked filter es')
  picked-perm filter {es} {es'} h =
      rw (picked-eq-filter_map filter es, picked-eq-filter_map filter es')
        (Perm.filter_map (pick filter) h)

module _ {F : Type 0} ⦃f : Float64 F⦄ {R : Type 0} (copier : Copier F) (c : Copies copier)
    (filter : Option (Filter F)) (response : Laptop F → R)
    (found : Laptop F → Exec (List R) Unit) where
  -- A callback that appends its response or fails, and changes nothing else.
  abbrev pub Appends : Type 0
  Appends =
      (l : Laptop F) (sent : List R)
      → (found l sent ≡ (ret tt, sent ++ response l ∷ []))
        ⊎ ((e : Error) × (found l sent ≡ (fail e, sent)))

  abbrev pub AlwaysAppends : Type 0
  AlwaysAppends = (l : Laptop F) (sent : List R) → found l sent ≡ (ret tt, sent ++ response l ∷ [])

  visit_yes :
      (l : Laptop F) (sent : List R)
      → is_qualified filter (some l) ≡ true
      → visit copier filter found l sent ≡ found l sent
  unfolding visit
  visit_yes l sent e = rw e (rw (deep_copy_lem copier c l sent))

  visit_no :
      (l : Laptop F) (sent : List R)
      → is_qualified filter (some l) ≡ false
      → visit copier filter found l sent ≡ (ret tt, sent)
  unfolding visit
  visit_no l sent e = rw e

  pub search_loop_complete :
      AlwaysAppends
      → (ctx : ℕ → CtxErr) → ((k : ℕ) → ctx k ≡ alive)
      → (n : ℕ) (es : List (String × Laptop F)) (sent : List R)
      → search_loop copier filter found ctx n es sent
        ≡ (ret tt, sent ++ map response (picked filter es))
  unfolding search_loop picked
  search_loop_complete h ctx a n [] sent = rw append-nil
  search_loop_complete h ctx a n ((id, l) ∷ rest) sent =
      elim (Bool-cases (is_qualified filter (some l))) [
        | inl e ↦
            rw (a n, a (suc n), visit_yes l sent e, h l sent, e)
              (search_loop_complete h ctx a (suc (suc n)) rest (sent ++ response l ∷ [])
                ∙ ap (λ (t : List R). (ret tt, t))
                    (append_assoc sent (response l ∷ []) (map response (picked filter rest))))
        | inr e ↦
            rw (a n, a (suc n), visit_no l sent e, e)
              (search_loop_complete h ctx a (suc (suc n)) rest sent)
      ]

  -- Whatever the context and the callback do, what was appended is the beginning of what the entries
  -- have to give, and the loop returns nil or an error of the callback.
  pub search_loop_prefix :
      Appends
      → (ctx : ℕ → CtxErr) (n : ℕ) (es : List (String × Laptop F)) (sent : List R)
      → let (r, sent') = search_loop copier filter found ctx n es sent in
        (unsent : List R) × (sent' ++ unsent ≡ sent ++ map response (picked filter es))
        × ((r ≡ ret tt) ⊎ ((e : Error) × (r ≡ fail e)))
  unfolding search_loop picked
  search_loop_prefix h ctx n [] sent = ([], rw append-nil, inl refl)
  search_loop_prefix h ctx n ((id, l) ∷ rest) sent =
      elim (Bool-cases (is_over (ctx n) (ctx (suc n)))) [
        | inl over ↦ (map response (picked filter ((id, l) ∷ rest)), rw over, rw over (inl refl))
        | inr on ↦ rw on (elim (Bool-cases (is_qualified filter (some l))) [
          | inl e ↦ elim (h l sent) [
            | inl go ↦
                rw (visit_yes l sent e, go, e)
                  (let (u, p, q) =
                      search_loop_prefix h ctx (suc (suc n)) rest (sent ++ response l ∷ []) in
                    (
                      u,
                      p ∙ append_assoc sent (response l ∷ []) (map response (picked filter rest)),
                      q,
                    ))
            | inr (err, stop) ↦ (
              map response (l ∷ picked filter rest),
              rw (visit_yes l sent e, stop, e),
              rw (visit_yes l sent e, stop) (inr (err, refl)),
            )
          ]
          | inr e ↦ rw (visit_no l sent e, e) (search_loop_prefix h ctx (suc (suc n)) rest sent)
        ])
      ]

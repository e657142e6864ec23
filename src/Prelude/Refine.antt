-- ===== src/Prelude/Refine.antt =====
-- A sequence of requests to a component, and the rule by which a component refines its abstract
-- specification: reply by reply, under an invariant.
use stow.Prelude.{◌≡◌, refl, List, [], ◌∷◌}

module _ {Request Reply : Type 0} where
  -- The requests in order; the replies in the same order.
  abbrev pub serve_all :
      {S : Type 0} → (Request → S → Reply × S) → List Request → S → List Reply × S
  serve_all serve [] s = ([], s)
  serve_all serve (q ∷ qs) s =
      let (r, s') = serve q s in let (rs, s'') = serve_all serve qs s' in (r ∷ rs, s'')

  -- One request keeps the invariant, and answers and moves as the specification does.
  abbrev pub Refines :
      {S T : Type 0}
      → (S → Type 0)
      → (S → T)
      → (Request → S → Reply × S)
      → (Request → T → Reply × T)
      → Type 0
  Refines {S} Inv view serve spec =
      (q : Request) (s : S)
      → Inv s
      → Inv (serve q s).1
        × ((serve q s).0 ≡ (spec q (view s)).0)
        × (view (serve q s).1 ≡ (spec q (view s)).1)

  pub serve_all-Refines :
      {S T : Type 0} (Inv : S → Type 0) (view : S → T) (serve : Request → S → Reply × S)
      (spec : Request → T → Reply × T)
      → Refines Inv view serve spec
      → (qs : List Request) (s : S) → Inv s
      → Inv (serve_all serve qs s).1
        × ((serve_all serve qs s).0 ≡ (serve_all spec qs (view s)).0)
        × (view (serve_all serve qs s).1 ≡ (serve_all spec qs (view s)).1)
  serve_all-Refines Inv view serve spec step [] s h = (h, refl, refl)
  serve_all-Refines Inv view serve spec step (q ∷ qs) s h =
      let (kept, reply, moved) = step q s h in
      let (kept', replies, moved') =
        serve_all-Refines Inv view serve spec step qs (serve q s).1 kept in
      (kept', rw (replies, reply, moved) refl, rw (moved', moved) refl)

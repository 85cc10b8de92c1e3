-- ===== src/Cluster/Ints.antt =====
-- The ints from one rank to another: what a rank has received, with what is under way to it, is what the
-- other rank has sent, in the same order.
use sqpkv.Prelude.{
  ℕ, ◌≡◌, ◌≢◌, ◌⊎◌, inl, inr, refl, sym, ap, ◌∙◌, List, [], ◌∷◌, ◌++◌, append_assoc, append-nil,
}
use mathlib.Core.Path.{subst}
use sqpkv.Prelude.Int.{ℤ}
use sqpkv.Cluster.{
  Process, Event, got, sent, heard, set, rest_of, Cluster, Enabled, perform, Step, step, Reach,
  start, go, starting,
}
use sqpkv.Cluster.Channels.{
  got_from, sent_to, got_from-append, sent_to-append, same_self, differs, equal_or_not, set-here,
}

-- What is picked out of the events, one by one
module _ (pick : List Event → List ℤ)
    (hom : (es fs : List Event) → pick (es ++ fs) ≡ pick es ++ pick fs) where
  pick-here :
      (self : ℕ) (e : Event) (f : ℕ → List Event)
      → pick (set self (f self ++ (e ∷ [])) f self) ≡ pick (f self) ++ pick (e ∷ [])
  pick-here self e f = rw (set-here self (f self ++ (e ∷ [])) f) (hom (f self) (e ∷ []))

  pick-done :
      (self rank : ℕ) (e : Event) (f : ℕ → List Event)
      → (rank ≡ self → pick (e ∷ []) ≡ [])
      → pick (set self (f self ++ (e ∷ [])) f rank) ≡ pick (f rank)
  pick-done self rank e f none_of = elim (equal_or_not rank self) [
    | inl same ↦
        rw (same, same_self self)
          (hom (f self) (e ∷ []) ∙ rw (none_of same) (append-nil (pick (f self))))
    | inr other ↦ rw (differs rank self other) refl
  ]

got_own : (r : ℕ) (x : ℤ) → got_from r (got r x ∷ []) ≡ x ∷ []
unfolding got_from
got_own r x = rw (got_from, same_self r) refl

got_other : (from r : ℕ) (x : ℤ) → from ≢ r → got_from r (got from x ∷ []) ≡ []
unfolding got_from
got_other from r x h = rw (got_from, differs from r h) refl

sent_own : (r : ℕ) (x : ℤ) → sent_to r (sent r x ∷ []) ≡ x ∷ []
unfolding sent_to
sent_own r x = rw (sent_to, same_self r) refl

sent_other : (to r : ℕ) (x : ℤ) → to ≢ r → sent_to r (sent to x ∷ []) ≡ []
unfolding sent_to
sent_other to r x h = rw (sent_to, differs to r h) refl

-- A family of families that differs from another at one place
set2-here : (i j : ℕ) (v : List ℤ) (f : ℕ → ℕ → List ℤ) → set i (set j v (f i)) f i j ≡ v
set2-here i j v f = rw (same_self i, same_self j) refl

set2-elsewhere :
    (i j a b : ℕ) (v : List ℤ) (f : ℕ → ℕ → List ℤ)
    → (a ≢ i) ⊎ (b ≢ j)
    → set i (set j v (f i)) f a b ≡ f a b
set2-elsewhere i j a b v f (inl h) = rw (differs a i h) refl
set2-elsewhere i j a b v f (inr h) = elim (equal_or_not a i) [
  | inl e ↦ rw (e, same_self i, differs b j h) refl
  | inr ne ↦ rw (differs a i ne) refl
]

-- Two pairs of ranks are the same, or they are not.
same_pair : (a b i j : ℕ) → ((a ≡ i) × (b ≡ j)) ⊎ ((a ≢ i) ⊎ (b ≢ j))
same_pair a b i j = elim (equal_or_not a i) [
  | inr ne ↦ inr (inl ne)
  | inl e ↦ elim (equal_or_not b j) [ inr ne ↦ inr (inr ne) | inl f ↦ inl (e, f) ]
]

module _ {A : Type 0} where
  abbrev Delivered : Cluster A → ℕ → ℕ → Type 0
  Delivered s from to = got_from from (s.done to) ++ s.ints from to ≡ sent_to to (s.done from)

  abbrev pub InTransit : Cluster A → Type 0
  InTransit s = (from to : ℕ) → Delivered s from to

  Delivered-by :
      (t : Cluster A) (from to : ℕ) (a b c : List ℤ)
      → got_from from (t.done to) ≡ a
      → t.ints from to ≡ b
      → sent_to to (t.done from) ≡ c
      → a ++ b ≡ c
      → Delivered t from to
  Delivered-by t from to a b c e f g h = rw (e, f, g) h

  -- The event is a receipt: of what is under way between these two ranks, or between others.
  after_got :
      (self y : ℕ) (x : ℤ) (next : Process A) (s : Cluster A) (from to : ℕ)
      → Enabled self (got y x) s
      → Delivered s from to
      → Delivered (perform self (got y x) next s) from to
  unfolding sent_to
  after_got self y x next s from to (later, e) h = elim (same_pair from to y self) [
    | inl (same, here) ↦
        subst (λ r. Delivered (perform self (got y x) next s) r to) (sym same)
          (subst (λ r. Delivered (perform self (got y x) next s) y r) (sym here)
            (Delivered-by (perform self (got y x) next s) y self
              (got_from y (s.done self) ++ (x ∷ [])) later (sent_to self (s.done y))
              (pick-here (got_from y) (got_from-append y) self (got y x) s.done
                ∙ rw (got_own y x) refl)
              (set2-here y self (rest_of (s.ints y self)) s.ints ∙ rw e refl)
              (pick-done (sent_to self) (sent_to-append self) self y (got y x) s.done (λ p. refl))
              (append_assoc (got_from y (s.done self)) (x ∷ []) later
                ∙ rw (← e) (
                    subst (λ r. Delivered s r self) same
                      (subst (λ r. Delivered s from r) here h)))))
    | inr apart ↦
        Delivered-by (perform self (got y x) next s) from to (got_from from (s.done to))
          (s.ints from to) (sent_to to (s.done from))
          (pick-done (got_from from) (got_from-append from) self to (got y x) s.done
            (λ p. none_from apart p))
          (set2-elsewhere y self from to (rest_of (s.ints y self)) s.ints apart)
          (pick-done (sent_to to) (sent_to-append to) self from (got y x) s.done (λ p. refl)) h
  ]
    where
      none_from : (from ≢ y) ⊎ (to ≢ self) → to ≡ self → got_from from (got y x ∷ []) ≡ []
      none_from (inl ne) p = got_other y from x (λ q. ne (sym q))
      none_from (inr ne) p = absurd (ne p)

  -- The event is a sending, between these two ranks or others.
  after_sent :
      (self y : ℕ) (x : ℤ) (next : Process A) (s : Cluster A) (from to : ℕ)
      → Delivered s from to
      → Delivered (perform self (sent y x) next s) from to
  unfolding got_from
  after_sent self y x next s from to h = elim (same_pair from to self y) [
    | inl (here, same) ↦
        subst (λ r. Delivered (perform self (sent y x) next s) r to) (sym here)
          (subst (λ r. Delivered (perform self (sent y x) next s) self r) (sym same)
            (Delivered-by (perform self (sent y x) next s) self y (got_from self (s.done y))
              (s.ints self y ++ (x ∷ [])) (sent_to y (s.done self) ++ (x ∷ []))
              (pick-done (got_from self) (got_from-append self) self y (sent y x) s.done
                (λ p. refl))
              (set2-here self y (s.ints self y ++ (x ∷ [])) s.ints)
              (pick-here (sent_to y) (sent_to-append y) self (sent y x) s.done
                ∙ rw (sent_own y x) refl)
              (sym (append_assoc (got_from self (s.done y)) (s.ints self y) (x ∷ []))
                ∙ ap (λ l. l ++ (x ∷ []))
                    (subst (λ r. Delivered s r y) here (subst (λ r. Delivered s from r) same h)))))
    | inr apart ↦
        Delivered-by (perform self (sent y x) next s) from to (got_from from (s.done to))
          (s.ints from to) (sent_to to (s.done from))
          (pick-done (got_from from) (got_from-append from) self to (sent y x) s.done (λ p. refl))
          (set2-elsewhere self y from to (s.ints self y ++ (x ∷ [])) s.ints apart)
          (pick-done (sent_to to) (sent_to-append to) self from (sent y x) s.done
            (λ p. none_to apart p))
          h
  ]
    where
      none_to : (from ≢ self) ⊎ (to ≢ y) → from ≡ self → sent_to to (sent y x ∷ []) ≡ []
      none_to (inl ne) p = absurd (ne p)
      none_to (inr ne) p = sent_other y to x (λ q. ne (sym q))

  Step-InTransit : {s t : Cluster A} → Step s t → InTransit s → InTransit t
  unfolding got_from sent_to
  Step-InTransit (step s self (got y x) next d enabled) h from to =
      after_got self y x next s from to enabled (h from to)
  Step-InTransit (step s self (sent y x) next d enabled) h from to =
      after_sent self y x next s from to (h from to)
  Step-InTransit (step s self (heard y x) next d enabled) h from to =
      rw
        (
          pick-done (got_from from) (got_from-append from) self to (heard y x) s.done (λ p. refl),
          pick-done (sent_to to) (sent_to-append to) self from (heard y x) s.done (λ p. refl),
        )
        (h from to)

  pub Reach-InTransit :
      (processes : ℕ → Process A) {t : Cluster A} → Reach (starting processes) t → InTransit t
  unfolding got_from sent_to
  Reach-InTransit processes start from to = refl
  Reach-InTransit processes (go r st) from to =
      Step-InTransit st (Reach-InTransit processes r) from to

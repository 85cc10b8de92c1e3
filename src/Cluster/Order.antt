-- ===== src/Cluster/Order.antt =====
-- Nothing is lost or turned round on the way: what a rank has heard of a root, with what is under way to it,
-- is what the root has told, and the same for the ints from one rank to another.
use sqpkv.Prelude.{
  ℕ, ◌≡◌, ◌≢◌, inl, inr, refl, sym, ◌∙◌, List, [], ◌∷◌, ◌++◌, ◌==◌, append_assoc, append-nil,
  Bool-cases,
}
use mathlib.Core.Path.{subst}
use sqpkv.Prelude.Int.{ℤ}
use sqpkv.Cluster.{
  Process, Event, got, sent, heard, set, rest_of, Cluster, Enabled, values_after, perform, Step,
  step, Reach, start, go, starting,
}
use sqpkv.Cluster.Channels.{values_of, values_of-append, same_self, differs, equal_or_not, set-here}

-- An event that is no value of this root's leaves what a rank has of it.
values_of-done :
    (root self rank : ℕ) (e : Event) (f : ℕ → List Event)
    → (rank ≡ self → values_of root (e ∷ []) ≡ [])
    → values_of root (set self (f self ++ (e ∷ [])) f rank) ≡ values_of root (f rank)
values_of-done root self rank e f none_of = elim (equal_or_not rank self) [
  | inl same ↦
      rw (same, same_self self)
        (values_of-append root (f self) (e ∷ [])
          ∙ rw (none_of same) (append-nil (values_of root (f self))))
  | inr other ↦ rw (differs rank self other) refl
]

heard_other : (root r : ℕ) (x : ℤ) → root ≢ r → values_of r (heard root x ∷ []) ≡ []
unfolding values_of
heard_other root r x h = rw (values_of, differs root r h) refl

heard_own : (r : ℕ) (x : ℤ) → values_of r (heard r x ∷ []) ≡ x ∷ []
unfolding values_of
heard_own r x = rw (values_of, same_self r) refl

values_of-here :
    (self root : ℕ) (e : Event) (f : ℕ → List Event)
    → values_of root (set self (f self ++ (e ∷ [])) f self)
      ≡ values_of root (f self) ++ values_of root (e ∷ [])
values_of-here self root e f =
    rw (set-here self (f self ++ (e ∷ [])) f) (values_of-append root (f self) (e ∷ []))

module _ {A : Type 0} where
  abbrev Ordered : Cluster A → ℕ → ℕ → Type 0
  Ordered s root rank =
      values_of root (s.done rank) ++ s.values root rank ≡ values_of root (s.done root)

  abbrev pub InOrder : Cluster A → Type 0
  InOrder s = (root rank : ℕ) → rank ≢ root → Ordered s root rank

  Ordered-by :
      (t : Cluster A) (root rank : ℕ) (a b c : List ℤ)
      → values_of root (t.done rank) ≡ a
      → t.values root rank ≡ b
      → values_of root (t.done root) ≡ c
      → a ++ b ≡ c
      → Ordered t root rank
  Ordered-by t root rank a b c e f g h = rw (e, f, g) h

  values_after-other :
      (self from root rank : ℕ) (x : ℤ) (s : Cluster A)
      → root ≢ from
      → values_after self (heard from x) s root rank ≡ s.values root rank
  values_after-other self from root rank x s apart = elim (Bool-cases (from == self)) [
    | inl e ↦ rw (values_after, e, differs root from apart) refl
    | inr e ↦ rw (values_after, e, differs root from apart) refl
  ]

  values_after-told :
      (self rank : ℕ) (x : ℤ) (s : Cluster A)
      → values_after self (heard self x) s self rank ≡ s.values self rank ++ (x ∷ [])
  values_after-told self rank x s = rw (values_after, same_self self) (rw (same_self self) refl)

  values_after-heard :
      (self root : ℕ) (x : ℤ) (s : Cluster A)
      → root ≢ self
      → values_after self (heard root x) s root self ≡ rest_of (s.values root self)
  values_after-heard self root x s away =
      rw (values_after, differs root self away, same_self root, same_self self) refl

  values_after-unheard :
      (self root rank : ℕ) (x : ℤ) (s : Cluster A)
      → root ≢ self
      → rank ≢ self
      → values_after self (heard root x) s root rank ≡ s.values root rank
  values_after-unheard self root rank x s away other =
      rw (values_after, differs root self away, same_self root, differs rank self other) refl

  -- The root tells a value.
  told :
      (self rank : ℕ) (x : ℤ) (next : Process A) (s : Cluster A)
      → rank ≢ self
      → Ordered s self rank
      → Ordered (perform self (heard self x) next s) self rank
  told self rank x next s other h =
      Ordered-by (perform self (heard self x) next s) self rank (values_of self (s.done rank))
        (s.values self rank ++ (x ∷ [])) (values_of self (s.done self) ++ (x ∷ []))
        (values_of-done self self rank (heard self x) s.done (λ e. absurd (other e)))
        (values_after-told self rank x s)
        (values_of-here self self (heard self x) s.done ∙ rw (heard_own self x) refl)
        (sym (append_assoc (values_of self (s.done rank)) (s.values self rank) (x ∷ []))
          ∙ rw h refl)

  -- Another rank hears one.
  heard_it :
      (self root : ℕ) (x : ℤ) (later : List ℤ) (next : Process A) (s : Cluster A)
      → root ≢ self
      → s.values root self ≡ x ∷ later
      → Ordered s root self
      → Ordered (perform self (heard root x) next s) root self
  heard_it self root x later next s away e h =
      Ordered-by (perform self (heard root x) next s) root self
        (values_of root (s.done self) ++ (x ∷ [])) later (values_of root (s.done root))
        (values_of-here self root (heard root x) s.done ∙ rw (heard_own root x) refl)
        (values_after-heard self root x s away ∙ rw e refl)
        (values_of-done root self root (heard root x) s.done (λ p. absurd (away p)))
        (append_assoc (values_of root (s.done self)) (x ∷ []) later ∙ (rw (← e) h))

  unheard :
      (self root rank : ℕ) (x : ℤ) (next : Process A) (s : Cluster A)
      → root ≢ self
      → rank ≢ self
      → Ordered s root rank
      → Ordered (perform self (heard root x) next s) root rank
  unheard self root rank x next s away other h =
      Ordered-by (perform self (heard root x) next s) root rank (values_of root (s.done rank))
        (s.values root rank) (values_of root (s.done root))
        (values_of-done root self rank (heard root x) s.done (λ p. absurd (other p)))
        (values_after-unheard self root rank x s away other)
        (values_of-done root self root (heard root x) s.done (λ p. absurd (away p))) h

  another :
      (self from root rank : ℕ) (x : ℤ) (next : Process A) (s : Cluster A)
      → root ≢ from
      → Ordered s root rank
      → Ordered (perform self (heard from x) next s) root rank
  another self from root rank x next s apart h =
      Ordered-by (perform self (heard from x) next s) root rank (values_of root (s.done rank))
        (s.values root rank) (values_of root (s.done root))
        (values_of-done root self rank (heard from x) s.done
          (λ p. heard_other from root x (λ q. apart (sym q))))
        (values_after-other self from root rank x s apart)
        (values_of-done root self root (heard from x) s.done
          (λ p. heard_other from root x (λ q. apart (sym q))))
        h

  from_root :
      (self root rank : ℕ) (x : ℤ) (next : Process A) (s : Cluster A)
      → Enabled self (heard root x) s
      → rank ≢ root
      → Ordered s root rank
      → Ordered (perform self (heard root x) next s) root rank
  from_root self root rank x next s enabled other h = elim (equal_or_not root self) [
    | inl own ↦
        subst (λ r. Ordered (perform r (heard root x) next s) root rank) own
          (told root rank x next s other h)
    | inr away ↦ elim (equal_or_not rank self) [
      | inl hearing ↦
          let (later, e) = enabled away in
          subst (λ r. Ordered (perform self (heard root x) next s) root r) (sym hearing)
            (heard_it self root x later next s away e (subst (λ r. Ordered s root r) hearing h))
      | inr silent ↦ unheard self root rank x next s away silent h
    ]
  ]

  Step-InOrder : {s t : Cluster A} → Step s t → InOrder s → InOrder t
  unfolding values_of
  Step-InOrder (step s self (got from x) next d enabled) h root rank other =
      rw
        (
          values_of-done root self rank (got from x) s.done (λ e. refl),
          values_of-done root self root (got from x) s.done (λ e. refl),
        )
        (h root rank other)
  Step-InOrder (step s self (sent to x) next d enabled) h root rank other =
      rw
        (
          values_of-done root self rank (sent to x) s.done (λ e. refl),
          values_of-done root self root (sent to x) s.done (λ e. refl),
        )
        (h root rank other)
  Step-InOrder (step s self (heard from x) next d enabled) h root rank other =
      elim (equal_or_not root from) [
        | inr apart ↦ another self from root rank x next s apart (h root rank other)
        | inl same ↦
            subst (λ r. Ordered (perform self (heard r x) next s) root rank) same
              (from_root self root rank x next s
                (subst (λ r. Enabled self (heard r x) s) (sym same) enabled) other
                (h root rank other))
      ]

  pub Reach-InOrder :
      (processes : ℕ → Process A) {t : Cluster A} → Reach (starting processes) t → InOrder t
  unfolding values_of
  Reach-InOrder processes start root rank other = refl
  Reach-InOrder processes (go r st) root rank other =
      Step-InOrder st (Reach-InOrder processes r) root rank other

-- ===== src/Sched/Threadlist/Chain.antt =====
-- Chains of nodes: each node's `tln_next` is the node behind it, whose `tln_prev` leads back.
use ops_class.Base.{
  ℕ, ◌≡◌, ◌≢◌, refl, sym, ◌∙◌, ◌⊎◌, inl, inr, List, [], ◌∷◌, ◌++◌, Option, some, subst,
}

abbrev pub In : ℕ → List ℕ → Type 0
In x [] = ⊥
In x (y ∷ ys) = (x ≡ y) ⊎ In x ys

-- No node stands in the list twice.
abbrev pub Distinct : List ℕ → Type 0
Distinct [] = Unit
Distinct (x ∷ xs) = (In x xs → ⊥) × Distinct xs

module _ (next prev : ℕ → Option ℕ) where
  abbrev pub Chain : List ℕ → Type 0
  Chain [] = Unit
  Chain (x ∷ []) = Unit
  Chain (x ∷ y ∷ rest) = (next x ≡ some y) × (prev y ≡ some x) × Chain (y ∷ rest)

pub In-append : (x : ℕ) (xs ys : List ℕ) → In x ys → In x (xs ++ ys)
In-append x [] ys h = h
In-append x (z ∷ xs) ys h = inr (In-append x xs ys h)

pub In-prefix : (x : ℕ) (xs ys : List ℕ) → In x xs → In x (xs ++ ys)
In-prefix x [] ys h = absurd h
In-prefix x (z ∷ xs) ys (inl e) = inl e
In-prefix x (z ∷ xs) ys (inr h) = inr (In-prefix x xs ys h)

pub In-split : (x : ℕ) (xs ys : List ℕ) → In x (xs ++ ys) → In x xs ⊎ In x ys
In-split x [] ys h = inr h
In-split x (z ∷ xs) ys (inl e) = inl (inl e)
In-split x (z ∷ xs) ys (inr h) = elim (In-split x xs ys h) [ inl a ↦ inl (inr a) | inr b ↦ inr b ]

pub Distinct-append : (xs ys : List ℕ) → Distinct (xs ++ ys) → Distinct ys
Distinct-append [] ys d = d
Distinct-append (x ∷ xs) ys d = Distinct-append xs ys d.1

pub Chain-append :
    (next prev : ℕ → Option ℕ) (xs : List ℕ) (y : ℕ) (ys : List ℕ)
    → Chain next prev (xs ++ (y ∷ ys))
    → Chain next prev (y ∷ ys)
Chain-append next prev [] y ys c = c
Chain-append next prev (x ∷ []) y ys c = c.2
Chain-append next prev (x ∷ x' ∷ xs) y ys c = Chain-append next prev (x' ∷ xs) y ys c.2

-- A chain stays one where its own pointers stay.
pub Chain-same :
    (next prev next' prev' : ℕ → Option ℕ) (x : ℕ) (xs : List ℕ)
    → Chain next prev (x ∷ xs)
    → ((k : ℕ) → In k (x ∷ xs) → next' k ≡ next k)
    → ((k : ℕ) → In k xs → prev' k ≡ prev k)
    → Chain next' prev' (x ∷ xs)
Chain-same next prev next' prev' x [] c n p = tt
Chain-same next prev next' prev' x (y ∷ xs) (a, b, c) n p = (
  n x (inl refl) ∙ a,
  p y (inl refl) ∙ b,
  Chain-same next prev next' prev' y xs c (λ k h. n k (inr h)) (λ k h. p k (inr h)),
)

there_l : (l r : ℕ) (pre post : List ℕ) → In l (pre ++ (l ∷ r ∷ post))
there_l l r pre post = In-append l pre (l ∷ r ∷ post) (inl refl)

there_r : (l r : ℕ) (pre post : List ℕ) → In r (pre ++ (l ∷ r ∷ post))
there_r l r pre post = In-append r pre (l ∷ r ∷ post) (inr (inl refl))

-- From `next` and `prev` to `next'` and `prev'` only the pointers of `l`, `r` and `t` change.
module _ (next prev next' prev' : ℕ → Option ℕ) (l t r : ℕ)
    (n : (k : ℕ) → k ≢ l → k ≢ t → next' k ≡ next k)
    (p : (k : ℕ) → k ≢ r → k ≢ t → prev' k ≡ prev k) where
  -- A new node `t` between `l` and `r`.
  module _ (nl : next' l ≡ some t) (pt : prev' t ≡ some l) (nt : next' t ≡ some r)
      (pr : prev' r ≡ some t) where
    pub Chain-insert :
        (pre post : List ℕ)
        → Distinct (pre ++ (l ∷ r ∷ post))
        → (In t (pre ++ (l ∷ r ∷ post)) → ⊥)
        → Chain next prev (pre ++ (l ∷ r ∷ post))
        → Chain next' prev' (pre ++ (l ∷ t ∷ r ∷ post))
    Chain-insert [] post (dl, (dr, d)) new (a, b, c) = (
      nl,
      pt,
      (
        nt,
        pr,
        Chain-same next prev next' prev' r post c
            (λ k h.
              n k (λ e. dl (subst (λ j. In j (r ∷ post)) e h))
                (λ e. new (inr (subst (λ j. In j (r ∷ post)) e h))))
            (λ k h.
              p k (λ e. dr (subst (λ j. In j post) e h))
                (λ e. new (inr (inr (subst (λ j. In j post) e h))))),
      ),
    )
    Chain-insert (x ∷ []) post (dx, d) new (a, b, c) = (
      n x (λ e. dx (inl e)) (λ e. new (inl (sym e))) ∙ a,
      p l (λ e. d.0 (inl e)) (λ e. new (inr (inl (sym e)))) ∙ b,
      Chain-insert [] post d (λ h. new (inr h)) c,
    )
    Chain-insert (x ∷ y ∷ pre) post (dx, d) new (a, b, c) = (
      n x (λ e. dx (inr (subst (λ j. In j (pre ++ (l ∷ r ∷ post))) (sym e) (there_l l r pre post))))
            (λ e. new (inl (sym e)))
          ∙ a,
      p y (λ e. d.0 (subst (λ j. In j (pre ++ (l ∷ r ∷ post))) (sym e) (there_r l r pre post)))
            (λ e. new (inr (inl (sym e))))
          ∙ b,
      Chain-insert (y ∷ pre) post d (λ h. new (inr h)) c,
    )

  -- The node `t` between `l` and `r` is taken out.
  module _ (nl : next' l ≡ some r) (pr : prev' r ≡ some l) where
    pub Chain-remove :
        (pre post : List ℕ)
        → Distinct (pre ++ (l ∷ t ∷ r ∷ post))
        → Chain next prev (pre ++ (l ∷ t ∷ r ∷ post))
        → Chain next' prev' (pre ++ (l ∷ r ∷ post))
    Chain-remove [] post (dl, (dt, (dr, d))) (a, b, (a', b', c)) = (
      nl,
      pr,
      Chain-same next prev next' prev' r post c
          (λ k h.
            n k (λ e. dl (inr (subst (λ j. In j (r ∷ post)) e h)))
              (λ e. dt (subst (λ j. In j (r ∷ post)) e h)))
          (λ k h.
            p k (λ e. dr (subst (λ j. In j post) e h))
              (λ e. dt (inr (subst (λ j. In j post) e h)))),
    )
    Chain-remove (x ∷ []) post (dx, d) (a, b, c) = (
      n x (λ e. dx (inl e)) (λ e. dx (inr (inl e))) ∙ a,
      p l (λ e. d.0 (inr (inl e))) (λ e. d.0 (inl e)) ∙ b,
      Chain-remove [] post d c,
    )
    Chain-remove (x ∷ y ∷ pre) post (dx, d) (a, b, c) =
        let whole = l ∷ t ∷ r ∷ post in
        let in_l : In l (pre ++ whole) = In-append l pre whole (inl refl) in
        let in_t : In t (pre ++ whole) = In-append t pre whole (inr (inl refl)) in
        let in_r : In r (pre ++ whole) = In-append r pre whole (inr (inr (inl refl))) in
        (
          n x (λ e. dx (inr (subst (λ j. In j (pre ++ whole)) (sym e) in_l)))
                (λ e. dx (inr (subst (λ j. In j (pre ++ whole)) (sym e) in_t)))
              ∙ a,
          p y (λ e. d.0 (subst (λ j. In j (pre ++ whole)) (sym e) in_r))
                (λ e. d.0 (subst (λ j. In j (pre ++ whole)) (sym e) in_t))
              ∙ b,
          Chain-remove (y ∷ pre) post d c,
        )

-- In a chain, two nodes side by side point at each other.
pub Chain-beside :
    (next prev : ℕ → Option ℕ) (pre : List ℕ) (l r : ℕ) (post : List ℕ)
    → Chain next prev (pre ++ (l ∷ r ∷ post))
    → (next l ≡ some r) × (prev r ≡ some l)
Chain-beside next prev pre l r post c =
    let (a, b, rest) = Chain-append next prev pre l (r ∷ post) c in (a, b)

pub Distinct-insert :
    (pre : List ℕ) (t : ℕ) (post : List ℕ)
    → Distinct (pre ++ post)
    → (In t (pre ++ post) → ⊥)
    → Distinct (pre ++ (t ∷ post))
Distinct-insert [] t post d new = (new, d)
Distinct-insert (x ∷ pre) t post (dx, d) new = (
  λ h. elim (In-split x pre (t ∷ post) h) [
    | inl a ↦ dx (In-prefix x pre post a)
    | inr (inl e) ↦ new (inl (sym e))
    | inr (inr b) ↦ dx (In-append x pre post b)
  ],
  Distinct-insert pre t post d (λ h. new (inr h)),
)

pub Distinct-remove :
    (pre : List ℕ) (t : ℕ) (post : List ℕ) → Distinct (pre ++ (t ∷ post)) → Distinct (pre ++ post)
Distinct-remove [] t post (dt, d) = d
Distinct-remove (x ∷ pre) t post (dx, d) = (
  λ h. dx (elim (In-split x pre post h) [
    | inl a ↦ In-prefix x pre (t ∷ post) a
    | inr b ↦ In-append x pre (t ∷ post) (inr b)
  ]),
  Distinct-remove pre t post d,
)

pub Distinct-new :
    (pre : List ℕ) (t : ℕ) (post : List ℕ) → Distinct (pre ++ (t ∷ post)) → In t (pre ++ post) → ⊥
Distinct-new [] t post (dt, d) h = dt h
Distinct-new (x ∷ pre) t post (dx, d) (inl e) =
    dx (subst (λ j. In j (pre ++ (t ∷ post))) e (In-append t pre (t ∷ post) (inl refl)))
Distinct-new (x ∷ pre) t post (dx, d) (inr h) = Distinct-new pre t post d h

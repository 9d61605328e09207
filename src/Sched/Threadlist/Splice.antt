-- ===== src/Sched/Threadlist/Splice.antt =====
-- What a list of threads looks like in memory, and putting in and taking out one node.
use ops_class.Base.{
  ℕ, ◌<◌, ◌≡◌, ◌≢◌, refl, sym, ◌∙◌, ap, ap₂, subst, ◌⊎◌, inl, inr, List, [], ◌∷◌, ◌++◌, Option,
  none, some, arith, append_assoc, eq→==, ne→==,
}
use ops_class.Sched.Threadlist.{head, tail, node, Threads, put, splice, unsplice}
use ops_class.Sched.Threadlist.Chain.{
  In, Distinct, Chain, Chain-insert, Chain-remove, Chain-beside, Distinct-insert, Distinct-remove,
  Distinct-new, In-append, In-split,
}

unfoldable pub nodes : List ℕ → List ℕ
nodes [] = []
nodes (t ∷ ts) = node t ∷ nodes ts

abbrev pub all : List ℕ → List ℕ
all ts = head ∷ (nodes ts ++ (tail ∷ []))

-- The list, from `tl_head` to `tl_tail`, is that of the threads `ts`, each of them once.
pub record Linked (s : Threads) (ts : List ℕ) : Type 0 where
  pub chain : Chain s.next s.prev (all ts)
  pub distinct : Distinct (all ts)
  pub first : s.prev head ≡ none
  pub last : s.next tail ≡ none

pub put_here : (f : ℕ → Option ℕ) (i : ℕ) (v : Option ℕ) → put f i v i ≡ v
put_here f i v = rw (eq→== i i refl) refl

pub put_other : (f : ℕ → Option ℕ) (i j : ℕ) (v : Option ℕ) → i ≢ j → put f i v j ≡ f j
put_other f i j v ne = rw (ne→== i j ne) refl

pub nodes-append : (xs ys : List ℕ) → nodes (xs ++ ys) ≡ nodes xs ++ nodes ys
unfolding nodes
nodes-append [] ys = refl
nodes-append (x ∷ xs) ys = ap (λ l. node x ∷ l) (nodes-append xs ys)

node_above : (ts : List ℕ) (k : ℕ) → In k (nodes ts) → tail < k
unfolding nodes
node_above [] k h = absurd h
node_above (t ∷ ts) k (inl e) = omega arith
node_above (t ∷ ts) k (inr h) = node_above ts k h

head_or_node : (ts : List ℕ) (k : ℕ) → In k (head ∷ nodes ts) → (k ≡ head) ⊎ (tail < k)
head_or_node ts k (inl e) = inl e
head_or_node ts k (inr h) = inr (node_above ts k h)

node_or_tail : (ts : List ℕ) (k : ℕ) → In k (nodes ts ++ (tail ∷ [])) → (k ≡ tail) ⊎ (tail < k)
node_or_tail ts k h = elim (In-split k (nodes ts) (tail ∷ []) h) [
  | inl a ↦ inr (node_above ts k a)
  | inr (inl e) ↦ inl e
  | inr (inr z) ↦ absurd z
]

module _ (xs ys : List ℕ) (pre : List ℕ) (l r : ℕ) (post : List ℕ)
    (left : head ∷ nodes xs ≡ pre ++ (l ∷ [])) (right : nodes ys ++ (tail ∷ []) ≡ r ∷ post) where
  all-between : all (xs ++ ys) ≡ pre ++ (l ∷ r ∷ post)
  all-between =
      ap (λ k. head ∷ (k ++ (tail ∷ []))) (nodes-append xs ys)
      ∙ ap (λ k. head ∷ k) (append_assoc (nodes xs) (nodes ys) (tail ∷ []))
      ∙ ap₂ ◌++◌ left right
      ∙ append_assoc pre (l ∷ []) (r ∷ post)

  all-insert : (t : ℕ) → all (xs ++ (t ∷ ys)) ≡ pre ++ (l ∷ node t ∷ r ∷ post)
  unfolding nodes
  all-insert t =
      ap (λ k. head ∷ (k ++ (tail ∷ []))) (nodes-append xs (t ∷ ys))
      ∙ ap (λ k. head ∷ k) (append_assoc (nodes xs) (node t ∷ nodes ys) (tail ∷ []))
      ∙ ap₂ ◌++◌ left (ap (λ k. node t ∷ k) right)
      ∙ append_assoc pre (l ∷ []) (node t ∷ r ∷ post)

  l_ne_tail : l ≢ tail
  l_ne_tail e =
      go (head_or_node xs l (subst (In l) (sym left) (In-append l pre (l ∷ []) (inl refl))))
    where
      go : (l ≡ head) ⊎ (tail < l) → ⊥
      go (inl z) = omega arith
      go (inr z) = omega arith

  r_ne_head : r ≢ head
  r_ne_head e = go (node_or_tail ys r (subst (In r) (sym right) (inl refl)))
    where
      go : (r ≡ tail) ⊎ (tail < r) → ⊥
      go (inl z) = omega arith
      go (inr z) = omega arith

  module _ (s : Threads) where
    pub beside : Linked s (xs ++ ys) → (s.next l ≡ some r) × (s.prev r ≡ some l)
    beside li =
        Chain-beside s.next s.prev pre l r post (subst (Chain s.next s.prev) all-between li.chain)

    module _ (t : ℕ) where
      pub Linked-splice :
          Linked s (xs ++ ys)
          → (In (node t) (all (xs ++ ys)) → ⊥)
          → Linked (splice l (node t) r s) (xs ++ (t ∷ ys))
      unfolding splice
      Linked-splice li new = record {
        chain = subst (Chain next' prev') (sym (all-insert t)) (
            Chain-insert s.next s.prev next' prev' l (node t) r
              (λ k a b.
                put_other (put s.next (node t) (some r)) l k (some (node t)) (λ e. a (sym e))
                ∙ put_other s.next (node t) k (some r) (λ e. b (sym e)))
              (λ k a b.
                put_other (put s.prev (node t) (some l)) r k (some (node t)) (λ e. a (sym e))
                ∙ put_other s.prev (node t) k (some l) (λ e. b (sym e)))
              (put_here (put s.next (node t) (some r)) l (some (node t)))
              (put_other (put s.prev (node t) (some l)) r (node t) (some (node t))
                  (λ e. new' (In-append (node t) pre (l ∷ r ∷ post) (inr (inl (sym e)))))
                ∙ put_here s.prev (node t) (some l))
              (put_other (put s.next (node t) (some r)) l (node t) (some (node t))
                  (λ e. new' (In-append (node t) pre (l ∷ r ∷ post) (inl (sym e))))
                ∙ put_here s.next (node t) (some r))
              (put_here (put s.prev (node t) (some l)) r (some (node t))) pre post d new'
              (subst (Chain s.next s.prev) all-between li.chain));
        distinct = subst Distinct (sym (all-insert t)) (
            subst Distinct (append_assoc pre (l ∷ []) (node t ∷ r ∷ post)) (
              Distinct-insert (pre ++ (l ∷ [])) (node t) (r ∷ post)
                (subst Distinct (sym (append_assoc pre (l ∷ []) (r ∷ post))) d)
                (subst (λ k. In (node t) k → ⊥) (sym (append_assoc pre (l ∷ []) (r ∷ post)))
                  new')));
        first =
            put_other (put s.prev (node t) (some l)) r head (some (node t)) r_ne_head
            ∙ put_other s.prev (node t) head (some l) (λ e. omega arith)
            ∙ li.first;
        last =
            put_other (put s.next (node t) (some r)) l tail (some (node t)) l_ne_tail
            ∙ put_other s.next (node t) tail (some r) (λ e. omega arith)
            ∙ li.last;
      }
        where
          next' : ℕ → Option ℕ
          next' = put (put s.next (node t) (some r)) l (some (node t))

          prev' : ℕ → Option ℕ
          prev' = put (put s.prev (node t) (some l)) r (some (node t))

          d : Distinct (pre ++ (l ∷ r ∷ post))
          d = subst Distinct all-between li.distinct

          new' : In (node t) (pre ++ (l ∷ r ∷ post)) → ⊥
          new' = subst (λ k. In (node t) k → ⊥) all-between new

      pub beside_node :
          Linked s (xs ++ (t ∷ ys)) → (s.prev (node t) ≡ some l) × (s.next (node t) ≡ some r)
      beside_node li =
          let c = subst (Chain s.next s.prev) (all-insert t) li.chain in
          let a = Chain-beside s.next s.prev pre l (node t) (r ∷ post) c in
          let c' =
            subst (Chain s.next s.prev) (sym (append_assoc pre (l ∷ []) (node t ∷ r ∷ post))) c in
          let b = Chain-beside s.next s.prev (pre ++ (l ∷ [])) (node t) r post c' in (a.1, b.0)

      pub Linked-unsplice :
          Linked s (xs ++ (t ∷ ys))
          → Linked (unsplice l (node t) r s) (xs ++ ys)
            × (In (node t) (all (xs ++ ys)) → ⊥)
            × ((unsplice l (node t) r s).next (node t) ≡ none)
            × ((unsplice l (node t) r s).prev (node t) ≡ none)
      unfolding unsplice
      Linked-unsplice li = (
        record {
          chain = subst (Chain next' prev') (sym all-between) (
              Chain-remove s.next s.prev next' prev' l (node t) r
                (λ k a b.
                  put_other (put s.next l (some r)) (node t) k none (λ e. b (sym e))
                  ∙ put_other s.next l k (some r) (λ e. a (sym e)))
                (λ k a b.
                  put_other (put s.prev r (some l)) (node t) k none (λ e. b (sym e))
                  ∙ put_other s.prev r k (some l) (λ e. a (sym e)))
                (put_other (put s.next l (some r)) (node t) l none
                    (λ e. fresh (In-append (node t) pre (l ∷ r ∷ post) (inl e)))
                  ∙ put_here s.next l (some r))
                (put_other (put s.prev r (some l)) (node t) r none
                    (λ e. fresh (In-append (node t) pre (l ∷ r ∷ post) (inr (inl e))))
                  ∙ put_here s.prev r (some l))
                pre post d (subst (Chain s.next s.prev) (all-insert t) li.chain));
          distinct = subst Distinct (sym all-between) (
              subst Distinct (append_assoc pre (l ∷ []) (r ∷ post))
                (Distinct-remove (pre ++ (l ∷ [])) (node t) (r ∷ post) d'));
          first =
              put_other (put s.prev r (some l)) (node t) head none (λ e. omega arith)
              ∙ put_other s.prev r head (some l) r_ne_head
              ∙ li.first;
          last =
              put_other (put s.next l (some r)) (node t) tail none (λ e. omega arith)
              ∙ put_other s.next l tail (some r) l_ne_tail
              ∙ li.last;
        },
        subst (λ k. In (node t) k → ⊥) (sym all-between) fresh,
        put_here (put s.next l (some r)) (node t) none,
        put_here (put s.prev r (some l)) (node t) none,
      )
        where
          next' : ℕ → Option ℕ
          next' = put (put s.next l (some r)) (node t) none

          prev' : ℕ → Option ℕ
          prev' = put (put s.prev r (some l)) (node t) none

          d : Distinct (pre ++ (l ∷ node t ∷ r ∷ post))
          d = subst Distinct (all-insert t) li.distinct

          d' : Distinct ((pre ++ (l ∷ [])) ++ (node t ∷ r ∷ post))
          d' = subst Distinct (sym (append_assoc pre (l ∷ []) (node t ∷ r ∷ post))) d

          fresh : In (node t) (pre ++ (l ∷ r ∷ post)) → ⊥
          fresh =
              subst (λ k. In (node t) k → ⊥) (append_assoc pre (l ∷ []) (r ∷ post))
                (Distinct-new (pre ++ (l ∷ [])) (node t) (r ∷ post) d')

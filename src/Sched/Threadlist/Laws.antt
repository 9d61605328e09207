-- ===== src/Sched/Threadlist/Laws.antt =====
-- The operations on a list of threads implement those of a sequence.
use ops_class.Base.{
  ℕ, ◌+◌, ◌-◌, ◌%◌, ◌^◌, ◌<◌, ◌≡◌, refl, sym, ◌∙◌, ap, subst, ◌⊎◌, inl, inr, List, [], ◌∷◌, ◌++◌,
  none, some, arith, append_assoc, append-nil, length,
}
use ops_class.Base.Run.{done, ◌>>◌}
use ops_class.Sched.Threadlist.{
  put, head, tail, node, count_up, Threads, splice, unsplice, insertafternode, insertbeforenode,
  removenode, take_off, addhead, addtail, remhead, remtail, insertafter, insertbefore, remove, init,
}
use ops_class.Sched.Threadlist.Chain.{In}
use ops_class.Sched.Threadlist.Splice.{
  nodes, beside, beside_node, Linked-splice, Linked-unsplice, nodes-append, put_here,
}
use ops_class.Sched.Threadlist.Deque.{
  IsList, Op, add_head, add_tail, rem_head, rem_tail, insert_after, insert_before, take_out, quiet,
  perform, Deque, spec_list, spec_result, last_of, but_last, Allowed, Implements,
}
use ops_class.Sched.Threadlist.Steps.{
  left_view, right_view, new_node, counted_up, counted_down, split, ended, self-node,
}

-- Putting `t` in between `xs` and `ys`, and taking it out.
module _ (xs ys : List ℕ) (t : ℕ) (s : Threads) where
  module _ (il : IsList s (xs ++ ys)) (new : In t (xs ++ ys) → ⊥)
      (room : length (xs ++ ys) + 1 < 2 ^ 32) where
    insert_after_lem :
        (pre : List ℕ) (l : ℕ)
        → head ∷ nodes xs ≡ pre ++ (l ∷ [])
        → (s' : Threads) × (quiet (insertafternode l (node t) >> count_up) s ≡ done none s')
          × IsList s' (xs ++ (t ∷ ys))
    unfolding insertafternode quiet splice
    insert_after_lem pre l left =
        let (r, post, right) = right_view ys in
        let b = beside xs ys pre l r post left right s il.linked in
        let li =
          Linked-splice xs ys pre l r post left right s t il.linked (new_node t (xs ++ ys) new) in
        (_, rw b.0 refl, counted_up xs ys t s (splice l (node t) r s) refl il room li)

    insert_before_lem :
        (r : ℕ) (post : List ℕ)
        → nodes ys ++ (tail ∷ []) ≡ r ∷ post
        → (s' : Threads) × (quiet (insertbeforenode (node t) r >> count_up) s ≡ done none s')
          × IsList s' (xs ++ (t ∷ ys))
    unfolding insertbeforenode quiet splice
    insert_before_lem r post right =
        let (pre, l, left) = left_view xs in
        let b = beside xs ys pre l r post left right s il.linked in
        let li =
          Linked-splice xs ys pre l r post left right s t il.linked (new_node t (xs ++ ys) new) in
        (_, rw b.1 refl, counted_up xs ys t s (splice l (node t) r s) refl il room li)

  remove_lem :
      IsList s (xs ++ (t ∷ ys))
      → (s' : Threads) × (removenode (node t) s ≡ done tt s')
        × IsList (record s' { count = (s'.count + (2 ^ 32 - 1)) % 2 ^ 32 }) (xs ++ ys)
  unfolding removenode unsplice
  remove_lem il =
      let (pre, l, left) = left_view xs in
      let (r, post, right) = right_view ys in
      let b = beside_node xs ys pre l r post left right s t il.linked in
      let li = Linked-unsplice xs ys pre l r post left right s t il.linked in
      (_, rw (b.0, b.1) refl, counted_down xs ys t s (unsplice l (node t) r s) refl il li.0)

nodes_end :
    (xs : Deque) (t : ℕ) → head ∷ nodes (xs ++ (t ∷ [])) ≡ (head ∷ nodes xs) ++ (node t ∷ [])
unfolding nodes
nodes_end xs t = ap (λ z. head ∷ z) (nodes-append xs (t ∷ []))

module _ (s : Threads) where
  rem_head_lem : (ts : Deque) → IsList s ts → Implements rem_head s ts
  unfolding perform spec_list spec_result remhead take_off nodes
  rem_head_lem [] il =
      let b = beside [] [] [] head tail [] refl refl s il.linked in
      (s, rw (b.0, il.linked.last) refl, il)
  rem_head_lem (x ∷ ts) il =
      let (r, post, right) = right_view ts in
      let b = beside [] (x ∷ ts) [] head (node x) (nodes ts ++ (tail ∷ [])) refl refl s il.linked in
      let n = beside_node [] ts [] head r post refl right s x il.linked in
      let (s', run, il') = remove_lem [] ts x s il in (_, rw (b.0, n.1, self-node x, run) refl, il')

  rem_tail_lem : (ts : Deque) → IsList s ts → Implements rem_tail s ts
  unfolding perform spec_list spec_result remtail take_off nodes last_of but_last
  rem_tail_lem [] il =
      let b = beside [] [] [] head tail [] refl refl s il.linked in
      (s, rw (b.1, il.linked.first) refl, il)
  rem_tail_lem (x ∷ ts) il =
      let e = ended x ts in
      let at_end = subst (IsList s) e.whole il in
      let then_none = subst (IsList s) (sym (append-nil (e.xs ++ (e.t ∷ [])))) at_end in
      let b =
        beside (e.xs ++ (e.t ∷ [])) [] (head ∷ nodes e.xs) (node e.t) tail [] (nodes_end e.xs e.t)
          refl s then_none.linked in
      let (pre, l, left) = left_view e.xs in
      let n = beside_node e.xs [] pre l tail [] left refl s e.t at_end.linked in
      let (s', run, il') = remove_lem e.xs [] e.t s at_end in
      let s'' : Threads = record s' { count = (s'.count + (2 ^ 32 - 1)) % 2 ^ 32 } in
      (
        s'',
        subst (λ o. remtail s ≡ done o s'') (sym e.last_) (rw (b.1, n.0, self-node e.t, run) refl),
        subst (IsList s'') (append-nil e.xs ∙ sym e.but_last_) il',
      )

  -- Each operation of threadlist.c that is allowed on a list ends without following a NULL pointer,
  -- hands back the thread that the operation on the sequence does, and leaves the list of the
  -- sequence as it is then, linked both ways and counted.
  pub perform-Implements : (op : Op) (ts : Deque) → IsList s ts → Allowed op ts → Implements op s ts
  unfolding perform spec_list spec_result addhead addtail insertafter insertbefore remove quiet
      nodes
  perform-Implements (add_head t) ts il (new, room) =
      insert_after_lem [] ts t s il new room [] head refl
  perform-Implements (add_tail t) ts il (new, room) =
      let e = append-nil ts in
      insert_before_lem ts [] t s (subst (IsList s) (sym e) il)
        (subst (λ z. In t z → ⊥) (sym e) new) (subst (λ z. length z + 1 < 2 ^ 32) (sym e) room) tail
        [] refl
  perform-Implements rem_head ts il ok = rem_head_lem ts il
  perform-Implements rem_tail ts il ok = rem_tail_lem ts il
  perform-Implements (insert_after o t) ts il (there, new, room) =
      let sp = split o ts there in
      let e = sp.whole ∙ sym (append_assoc sp.xs (o ∷ []) sp.ys) in
      let (s', run, il') =
        insert_after_lem (sp.xs ++ (o ∷ [])) sp.ys t s (subst (IsList s) e il)
          (subst (λ z. In t z → ⊥) e new) (subst (λ z. length z + 1 < 2 ^ 32) e room)
          (head ∷ nodes sp.xs) (node o) (nodes_end sp.xs o) in
      (
        s',
        run,
        subst (IsList s') (append_assoc sp.xs (o ∷ []) (t ∷ sp.ys) ∙ sym (sp.behind_ t)) il',
      )
  perform-Implements (insert_before t o) ts il (there, new, room) =
      let sp = split o ts there in
      let e = sp.whole in
      let (s', run, il') =
        insert_before_lem sp.xs (o ∷ sp.ys) t s (subst (IsList s) e il)
          (subst (λ z. In t z → ⊥) e new) (subst (λ z. length z + 1 < 2 ^ 32) e room) (node o)
          (nodes sp.ys ++ (tail ∷ [])) refl in
      (s', run, subst (IsList s') (sym (sp.before_ t)) il')
  perform-Implements (take_out t) ts il there =
      let sp = split t ts there in
      let (s', run, il') = remove_lem sp.xs sp.ys t s (subst (IsList s) sp.whole il) in
      (_, rw run refl, subst (IsList _) (sym sp.without_) il')

-- `threadlist_init` makes the empty list.
pub init-IsList : (s : Threads) → IsList (init s) []
unfolding init nodes
init-IsList s = record {
  linked = record {
    chain = (refl, refl, tt);
    distinct = (λ h. only h, (λ z. z, tt));
    first = put_here (put s.prev tail (some head)) head none;
    last = put_here (put s.next head (some tail)) tail none;
  };
  count = refl;
  small = omega arith;
}
  where
    only : (◌≡◌ {A = ℕ} head tail) ⊎ ⊥ → ⊥
    only (inl e) = omega arith
    only (inr z) = z

-- ===== src/Queue/Order.antt =====
-- The order in which a queue gives its items.
use webx_engine.Common.{
  ◌≡◌, refl, sym, ap, false, List, [], ◌∷◌, ◌++◌, append-nil, Bool-cases, inl, inr, if◌then◌else◌,
  arith,
}
use webx_engine.Common.Int.{ℤ, ltb_ℤ, eqb_ℤ, ◌≤ℤ◌, ◌<ℤ◌}
use webx_engine.Queue.{
  Item, Queue, QueueCall, puts, gets, stops, new_queue, insert_item, put, get, get_first, stop,
  queue_call, queue_calls,
}

module _ {ℓ} {A : Type ℓ} where
  abbrev AllFrom : ℤ → List (Item A) → Type 0
  AllFrom p [] = Unit
  AllFrom p (i ∷ is) = (p ≤ℤ i.priority) × AllFrom p is

  -- No item stands after one of a greater priority.
  abbrev pub IsOrdered : List (Item A) → Type 0
  IsOrdered [] = Unit
  IsOrdered (i ∷ is) = AllFrom i.priority is × IsOrdered is

  -- The items of one priority, in their order.
  pub contents : ℤ → List (Item A) → List A
  contents p [] = []
  contents p (i ∷ is) = if eqb_ℤ i.priority p then i.content ∷ contents p is else contents p is

  lower-AllFrom : (p q : ℤ) (is : List (Item A)) → p ≤ℤ q → AllFrom q is → AllFrom p is
  lower-AllFrom p q [] h a = tt
  lower-AllFrom p q (i ∷ is) h (a, b) = (ground arith, lower-AllFrom p q is h b)

  insert-AllFrom :
      (p : ℤ) (n : Item A) (is : List (Item A))
      → p ≤ℤ n.priority
      → AllFrom p is
      → AllFrom p (insert_item n is)
  unfolding insert_item
  insert-AllFrom p n [] h a = (h, tt)
  insert-AllFrom p n (i ∷ is) h (a, b) = elim (Bool-cases (ltb_ℤ n.priority i.priority)) [
    | inl e ↦ rw e (h, (a, b))
    | inr e ↦ rw e (a, insert-AllFrom p n is h b)
  ]

  insert-IsOrdered : (n : Item A) (is : List (Item A)) → IsOrdered is → IsOrdered (insert_item n is)
  unfolding insert_item
  insert-IsOrdered n [] o = (tt, tt)
  insert-IsOrdered n (i ∷ is) (a, o) = elim (Bool-cases (ltb_ℤ n.priority i.priority)) [
    | inl e ↦ rw e ((ground arith, lower-AllFrom n.priority i.priority is (ground arith) a), (a, o))
    | inr e ↦ rw e (insert-AllFrom i.priority n is (ground arith) a, insert-IsOrdered n is o)
  ]

  contents-above : (p q : ℤ) (is : List (Item A)) → p <ℤ q → AllFrom q is → contents p is ≡ []
  unfolding contents
  contents-above p q [] h a = refl
  contents-above p q (i ∷ is) h (a, b) = elim (Bool-cases (eqb_ℤ i.priority p)) [
    | inl e ↦ absurd (ground arith)
    | inr e ↦ rw e (contents-above p q is h b)
  ]

  contents-insert :
      (p : ℤ) (n : Item A) (is : List (Item A))
      → IsOrdered is
      → contents p (insert_item n is)
        ≡ contents p is ++ (if eqb_ℤ n.priority p then n.content ∷ [] else [])
  unfolding contents insert_item
  contents-insert p n [] o = elim (Bool-cases (eqb_ℤ n.priority p)) [
    | inl e ↦ rw e refl
    | inr e ↦ rw e refl
  ]
  contents-insert p n (i ∷ is) (a, o) = elim (Bool-cases (ltb_ℤ n.priority i.priority)) [
    | inl e ↦ elim (Bool-cases (eqb_ℤ n.priority p)) [
      | inl g ↦
          let f : eqb_ℤ i.priority p ≡ false = ground arith in
          rw (e, g, f, contents-above p i.priority is (ground arith) a) refl
      | inr g ↦ rw (e, g) (sym (append-nil (contents p (i ∷ is))))
    ]
    | inr e ↦ elim (Bool-cases (eqb_ℤ i.priority p)) [
      | inl f ↦ rw (e, f) (ap (λ xs. i.content ∷ xs) (contents-insert p n is o))
      | inr f ↦ rw (e, f) (contents-insert p n is o)
    ]
  ]

  -- `put` on a queue that is in order and not stopped: the queue is in order after, and of each priority
  -- it has the items that it had, in their order, with the new item after those of its own priority.
  pub put-IsOrdered :
      (item : A) (priority p : ℤ) (q : Queue A)
      → IsOrdered q.items
      → q.unavailable ≡ false
      → IsOrdered (put item priority q).items
        × (contents p (put item priority q).items
            ≡ contents p q.items ++ (if eqb_ℤ priority p then item ∷ [] else []))
  unfolding put
  put-IsOrdered item priority p q o h =
      let n : Item A = record { content = item; priority = priority } in
      rw h (insert-IsOrdered n q.items o, contents-insert p n q.items o)

  get_first-IsOrdered :
      (is : List (Item A)) (q : Queue A)
      → q.items ≡ is
      → IsOrdered is
      → IsOrdered (get_first is q).1.items
  get_first-IsOrdered [] q e o = rw e tt
  get_first-IsOrdered (i ∷ is) q e (a, o) = o

  call-IsOrdered :
      (c : QueueCall A) (q : Queue A) → IsOrdered q.items → IsOrdered (queue_call c q).items
  unfolding queue_call put get stop
  call-IsOrdered (puts item priority) q o = elim (Bool-cases q.unavailable) [
    | inl e ↦ rw e o
    | inr e ↦ rw e (insert-IsOrdered (record { content = item; priority = priority }) q.items o)
  ]
  call-IsOrdered gets q o = elim (Bool-cases q.unavailable) [
    | inl e ↦ rw e o
    | inr e ↦ rw e (get_first-IsOrdered q.items (record q { unavailable = false }) refl o)
  ]
  call-IsOrdered stops q o = o

  calls-IsOrdered :
      (cs : List (QueueCall A)) (q : Queue A)
      → IsOrdered q.items
      → IsOrdered (queue_calls cs q).items
  unfolding queue_calls
  calls-IsOrdered [] q o = o
  calls-IsOrdered (c ∷ cs) q o = calls-IsOrdered cs (queue_call c q) (call-IsOrdered c q o)

  -- After any calls of a new queue, no item stands after one of a greater priority.
  pub queue-IsOrdered : (cs : List (QueueCall A)) → IsOrdered (queue_calls cs new_queue).items
  queue-IsOrdered cs = calls-IsOrdered cs new_queue tt

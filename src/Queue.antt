-- ===== src/Queue.antt =====
-- src/utils/WebXQueue.h: the queue between the controller and the publisher's thread. The mutex makes each
-- call one step; a call of `get` that waits is one that changes nothing and is made again when it is woken.
pub mod Order
pub mod Tests
use webx_engine.Common.{Bool, true, false, List, [], ◌∷◌, if◌then◌else◌}
use webx_engine.Common.Int.{ℤ, ltb_ℤ}

pub record Item {ℓ} (A : Type ℓ) : Type ℓ where
  pub content : A
  pub priority : ℤ

pub record Queue {ℓ} (A : Type ℓ) : Type ℓ where
  pub items : List (Item A)
  pub unavailable : Bool

-- What `get` comes to: it waits, finds the queue stopped and gives null, or gives an item.
pub data GetResult {ℓ} (A : Type ℓ) : Type ℓ where
  waits stopped : GetResult A
  gives : A → GetResult A

-- A call of the queue, with the item and its priority.
pub data QueueCall {ℓ} (A : Type ℓ) : Type ℓ where
  puts : A → ℤ → QueueCall A
  gets stops : QueueCall A

module _ {ℓ} {A : Type ℓ} where
  -- The constructor.
  abbrev pub new_queue : Queue A
  new_queue = record { items = []; unavailable = false }

  -- The loop of `put`: before the first item of a greater priority, or at the end.
  unfoldable pub insert_item : Item A → List (Item A) → List (Item A)
  insert_item new_item [] = new_item ∷ []
  insert_item new_item (i ∷ is) =
      if ltb_ℤ new_item.priority i.priority then new_item ∷ i ∷ is else i ∷ insert_item new_item is

  -- `put`
  unfoldable pub put : A → ℤ → Queue A → Queue A
  unfolding insert_item
  put item priority q =
      if q.unavailable
      then q
      else record q { items = insert_item (record { content = item; priority = priority }) q.items }

  -- `get` of the items of a queue that is not stopped.
  abbrev pub get_first : List (Item A) → Queue A → GetResult A × Queue A
  get_first [] q = (waits, q)
  get_first (i ∷ is) q = (gives i.content, record q { items = is })

  unfoldable pub get : Queue A → GetResult A × Queue A
  get q = if q.unavailable then (stopped, q) else get_first q.items q

  -- `stop`
  unfoldable pub stop : Queue A → Queue A
  stop q = record q { unavailable = true }

  unfoldable pub queue_call : QueueCall A → Queue A → Queue A
  unfolding put get stop
  queue_call (puts item priority) q = put item priority q
  queue_call gets q = (get q).1
  queue_call stops q = stop q

  unfoldable pub queue_calls : List (QueueCall A) → Queue A → Queue A
  unfolding queue_call
  queue_calls [] q = q
  queue_calls (c ∷ cs) q = queue_calls cs (queue_call c q)

-- ===== src/Sched/Threadlist.antt =====
-- kern/thread/threadlist.c: doubly linked lists of threads through nodes that the threads hold.
pub mod Chain
pub mod Splice
pub mod Deque
pub mod Steps
pub mod Laws
use ops_class.Base.{
  ℕ, zero, suc, ◌+◌, ◌-◌, ◌%◌, ◌^◌, Bool, true, false, ◌==◌, if◌then◌else◌, Option, none, some,
}
use ops_class.Base.Run.{Cmd, Run, done, fail, panicked, blocked, ◌>>=◌, ◌>>◌}

-- The nodes: the two that a list holds, `tl_head` and `tl_tail`, and the `t_listnode` of each thread.
abbrev pub head : ℕ
head = 0

abbrev pub tail : ℕ
tail = 1

abbrev pub node : ℕ → ℕ
node t = t + 2

-- `tln_self`: NULL in the list's own nodes.
abbrev pub self_of : ℕ → Option ℕ
self_of zero = none
self_of (suc zero) = none
self_of (suc (suc t)) = some t

-- The memory of the nodes, NULL being `none`, and `tl_count`.
pub record Threads : Type 0 where
  pub next : ℕ → Option ℕ
  pub prev : ℕ → Option ℕ
  pub count : ℕ

abbrev pub put : (ℕ → Option ℕ) → ℕ → Option ℕ → ℕ → Option ℕ
put f i v j = if i == j then v else f j

-- A NULL pointer is not followed.
abbrev pub follow : Option ℕ → Cmd Threads ℕ
follow none = λ s. panicked
follow (some i) = done i

-- `threadlistnode_init`; `tln_self` is set once and for all.
unfoldable pub node_init : ℕ → Threads → Threads
node_init t s = record s { next = put s.next (node t) none; prev = put s.prev (node t) none }

-- `threadlist_init`.
unfoldable pub init : Threads → Threads
init s = record {
  next = put (put s.next head (some tail)) tail none;
  prev = put (put s.prev tail (some head)) head none;
  count = 0;
}

unfoldable pub isempty : Threads → Bool
isempty s = s.count == 0

-- `addee->tln_prev = left; addee->tln_next = right; left->tln_next = addee; right->tln_prev = addee`
unfoldable pub splice : ℕ → ℕ → ℕ → Threads → Threads
splice left addee right s = record s {
  next = put (put s.next addee (some right)) left (some addee);
  prev = put (put s.prev addee (some left)) right (some addee);
}

abbrev pub count_up : Cmd Threads (Unit {0})
count_up s = done tt (record s { count = (s.count + 1) % 2 ^ 32 })

-- `tl_count--`, of an `unsigned`.
abbrev pub count_down : Cmd Threads (Unit {0})
count_down s = done tt (record s { count = (s.count + (2 ^ 32 - 1)) % 2 ^ 32 })

pub insertafternode : ℕ → ℕ → Cmd Threads (Unit {0})
insertafternode onlist addee s =
    (follow (s.next onlist) >>= λ right s'. done tt (splice onlist addee right s')) s

pub insertbeforenode : ℕ → ℕ → Cmd Threads (Unit {0})
insertbeforenode addee onlist s =
    (follow (s.prev onlist) >>= λ left s'. done tt (splice left addee onlist s')) s

-- `tln->tln_prev->tln_next = tln->tln_next`, and so on.
unfoldable pub unsplice : ℕ → ℕ → ℕ → Threads → Threads
unsplice left gone right s = record s {
  next = put (put s.next left (some right)) gone none;
  prev = put (put s.prev right (some left)) gone none;
}

pub removenode : ℕ → Cmd Threads (Unit {0})
removenode tln s =
    (follow (s.prev tln) >>= λ left s.
    (follow (s.next tln) >>= λ right s'. done tt (unsplice left tln right s')) s)
      s

unfoldable pub addhead : ℕ → Cmd Threads (Unit {0})
unfolding insertafternode
addhead t = insertafternode head (node t) >> count_up

unfoldable pub addtail : ℕ → Cmd Threads (Unit {0})
unfolding insertbeforenode
addtail t = insertbeforenode (node t) tail >> count_up

-- `if (tln->tln_next == NULL) return NULL`; else the node is taken off and its thread returned.
pub take_off : ℕ → Option ℕ → Cmd Threads (Option ℕ)
unfolding removenode
take_off tln none = done none
take_off tln (some other) = do removenode tln; count_down; done (self_of tln)

unfoldable pub remhead : Cmd Threads (Option ℕ)
unfolding take_off
remhead s = (follow (s.next head) >>= λ tln s'. take_off tln (s'.next tln) s') s

unfoldable pub remtail : Cmd Threads (Option ℕ)
unfolding take_off
remtail s = (follow (s.prev tail) >>= λ tln s'. take_off tln (s'.prev tln) s') s

unfoldable pub insertafter : ℕ → ℕ → Cmd Threads (Unit {0})
unfolding insertafternode
insertafter onlist addee = insertafternode (node onlist) (node addee) >> count_up

unfoldable pub insertbefore : ℕ → ℕ → Cmd Threads (Unit {0})
unfolding insertbeforenode
insertbefore addee onlist = insertbeforenode (node addee) (node onlist) >> count_up

unfoldable pub remove : ℕ → Cmd Threads (Unit {0})
unfolding removenode
remove t = removenode (node t) >> count_down

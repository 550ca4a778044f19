-- ===== src/IntrusiveStack.antt =====
-- urn/intrusive_stack.hpp: `urn::intrusive_stack`, a LIFO that is threaded through a member of its
-- nodes. Nodes are addresses, `hooks` is the member `Next` of every node, address 0 is `nullptr`.
pub mod Chain
pub mod Laws
mod Examples
use urn.Prelude.{ℕ, Bool, ◌==◌, if◌then◌else◌, List, [], ◌∷◌}

abbrev pub Ptr : Type 0
Ptr = ℕ

abbrev pub nullptr : Ptr
nullptr = 0

-- The hook of each node; the store of all nodes that exist.
abbrev pub Hooks : Type 0
Hooks = Ptr → Ptr

abbrev pub write_hook : Hooks → Ptr → Ptr → Hooks
write_hook h p q a = if a == p then q else h a

pub record IntrusiveStack : Type 0 where
  pub top_ : Ptr

abbrev pub empty_stack : IntrusiveStack
empty_stack = record { top_ = nullptr }

unfoldable pub push : IntrusiveStack → Ptr → Hooks → IntrusiveStack × Hooks
push s node h = (record { top_ = node }, write_hook h node s.top_)

unfoldable pub try_pop : IntrusiveStack → Hooks → Ptr × IntrusiveStack
try_pop s h =
    let node = s.top_ in if node == nullptr then (node, s) else (node, record { top_ = h s.top_ })

unfoldable pub top : IntrusiveStack → Ptr
top s = s.top_

unfoldable pub is_empty : IntrusiveStack → Bool
is_empty s = s.top_ == nullptr

-- A history of calls on one stack.
pub data Op : Type 0 where
  pushes : Ptr → Op
  pops : Op

-- What the pops of a history return.
unfoldable pub run : List Op → IntrusiveStack → Hooks → List Ptr
run [] s h = []
run (pushes n ∷ ops) s h = let (s', h') = push s n h in run ops s' h'
run (pops ∷ ops) s h = let (node, s') = try_pop s h in node ∷ run ops s' h

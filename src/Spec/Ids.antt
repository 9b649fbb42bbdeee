-- ===== src/Spec/Ids.antt =====
-- Finding and dropping an entry by its id.
use cpp_orderbook_engine.Prelude.{Option, some, none, List, [], ◌∷◌, ◌==◌, if◌then◌else◌}
use cpp_orderbook_engine.Types.{OrderId}
use cpp_orderbook_engine.Spec.{Entry, Entries}

-- The first entry with an id.
abbrev pub pick : OrderId → List Entry → Option Entry
pick id [] = none
pick id (x ∷ xs) = if x.id == id then some x else pick id xs

-- The entries with other ids.
abbrev pub strip : OrderId → List Entry → List Entry
strip id [] = []
strip id (x ∷ xs) = let rest = strip id xs in if x.id == id then rest else x ∷ rest

abbrev pub strip_book : OrderId → Entries → Entries
strip_book id q side i = strip id (q side i)

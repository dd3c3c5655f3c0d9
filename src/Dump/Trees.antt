-- ===== src/Dump/Trees.antt =====
-- The dumps to stderr (lksmith.c, lk_dump_to_stderr and tree_print). Their result is what they write.
use lksmith.Base.{
  ℕ, ◌≡◌, refl, ap, List, [], ◌∷◌, ◌++◌, none, some, In, inl, inr, arith, take, Outcome, done,
  fault, dangling, ◌>>=◌,
}
use lksmith.Lock.{Text, Lock, Heap}
use lksmith.Tree.{TreeLib}
use lksmith.Graph.{Graph, IsWf}
use lksmith.Dump.{fwdprintf, vsnprintf, lk_dump}
use lksmith.Dump.Laws.{lk_text, lk_dump-Shows}

-- The sizes of the two buffers.
abbrev pub lk_buf_size : ℕ
lk_buf_size = 16384

abbrev pub tree_buf_size : ℕ
tree_buf_size = 8196

-- "g_lock_tree: {", ",\n" and "\n}\n"
abbrev pub heading : Text
heading = 103 ∷ 95 ∷ 108 ∷ 111 ∷ 99 ∷ 107 ∷ 95 ∷ 116 ∷ 114 ∷ 101 ∷ 101 ∷ 58 ∷ 32 ∷ 123 ∷ []

abbrev pub separator : Text
separator = 44 ∷ 10 ∷ []

abbrev pub ending : Text
ending = 10 ∷ 125 ∷ 10 ∷ []

-- The locks at some addresses.
abbrev pub Live : Heap → List ℕ → List Lock → Type 0
Live h [] [] = Unit
Live h (a ∷ nodes) (lk ∷ locks) = (h a ≡ some lk) × Live h nodes locks
Live h _ _ = ⊥

all-Live :
    (h : Heap) (nodes : List ℕ)
    → ((a : ℕ) → In a nodes → (lk : Lock) × (h a ≡ some lk))
    → (locks : List Lock) × Live h nodes locks
all-Live h [] live = ([], tt)
all-Live h (a ∷ nodes) live =
    let (lk, e) = live a (inl refl) in
    let (locks, rest) = all-Live h nodes (λ b k. live b (inr k)) in (lk ∷ locks, (e, rest))

module _ (pointer number : ℕ → Text) where
  -- The dump of a lock into a buffer with `old` contents.
  abbrev pub dumped : ℕ → Lock → Text → Text
  dumped n lk old = (lk_dump pointer number n lk (record { text = old; off = 0 })).text

  unfoldable pub lk_dump_to_stderr : Lock → Text → Text
  lk_dump_to_stderr lk old = dumped lk_buf_size lk old ++ 10 ∷ []

  -- The loop of tree_print over the nodes of the tree.
  unfoldable pub print_nodes : Heap → Text → List ℕ → Text → Outcome Text
  print_nodes h prefix [] old = done []
  print_nodes h prefix (a ∷ nodes) old = elim (h a) [
    | none ↦ fault dangling
    | some lk ↦
        let buf = dumped tree_buf_size lk old in
        print_nodes h separator nodes buf >>= λ out. done (prefix ++ buf ++ out)
  ]

  module _ (T : TreeLib) where
    unfoldable pub tree_print : Graph T → Text → Outcome Text
    unfolding print_nodes
    tree_print g old =
        print_nodes g.heap [] (T.elements g.tree) old >>= λ out. done (heading ++ out ++ ending)

  dumped_lk :
      (lk : Lock) (old : Text)
      → dumped lk_buf_size lk old ≡ take 16383 (lk_text lk_buf_size (omega arith) pointer number lk)
  unfolding lk_dump fwdprintf vsnprintf
  dumped_lk lk old =
      (lk_dump-Shows lk_buf_size (omega arith) pointer number lk (record { text = []; off = 0 }) []
        (refl, refl)).0

  dumped_tree :
      (lk : Lock) (old : Text)
      → dumped tree_buf_size lk old
        ≡ take 8195 (lk_text tree_buf_size (omega arith) pointer number lk)
  unfolding lk_dump fwdprintf vsnprintf
  dumped_tree lk old =
      (lk_dump-Shows tree_buf_size (omega arith) pointer number lk (record { text = []; off = 0 })
        [] (refl, refl)).0

  -- lk_dump_to_stderr writes the first 16383 characters of the text of the lock.
  lk_dump_to_stderr_lem :
      (lk : Lock) (old : Text)
      → lk_dump_to_stderr lk old
        ≡ take 16383 (lk_text lk_buf_size (omega arith) pointer number lk) ++ 10 ∷ []
  unfolding lk_dump_to_stderr
  lk_dump_to_stderr_lem lk old = ap (λ s. s ++ 10 ∷ []) (dumped_lk lk old)

  -- The texts of locks, cut to the size of a buffer, with a prefix for the first and the separator.
  abbrev pub listed : Text → List Lock → Text
  listed prefix [] = []
  listed prefix (lk ∷ locks) =
      prefix
      ++ take 8195 (lk_text tree_buf_size (omega arith) pointer number lk)
      ++ listed separator locks

  print_nodes-listed :
      (h : Heap) (nodes : List ℕ) (locks : List Lock) (prefix old : Text)
      → Live h nodes locks
      → print_nodes h prefix nodes old ≡ done (listed prefix locks)
  unfolding print_nodes
  print_nodes-listed h [] [] prefix old live = refl
  print_nodes-listed h [] (lk ∷ locks) prefix old live = absurd live
  print_nodes-listed h (a ∷ nodes) [] prefix old live = absurd live
  print_nodes-listed h (a ∷ nodes) (lk ∷ locks) prefix old (e, live) =
      let buf = dumped tree_buf_size lk old in
      let rest = print_nodes-listed h nodes locks separator buf live in
      rw (e, rest, print_nodes)
        (ap (λ s. done (prefix ++ s ++ listed separator locks)) (dumped_tree lk old))

  module _ (T : TreeLib) where
    -- In a well-formed graph tree_print meets no dangling pointer, and writes the texts of all locks in
    -- the order of the tree, each cut to 8195 characters, with a comma and a newline between them. It
    -- uses one buffer for all, but a lock is written as if its buffer were fresh, whatever stood there.
    pub tree_print-listed :
        (g : Graph T)
        → IsWf T g
        → (locks : List Lock) × Live g.heap (T.elements g.tree) locks
          × ((old : Text) → tree_print T g old ≡ done (heading ++ listed [] locks ++ ending))
    unfolding tree_print
    tree_print-listed g w =
        let live : (a : ℕ) → In a (T.elements g.tree) → (lk : Lock) × (g.heap a ≡ some lk) = λ a k.
          (let (p, e) = (T.In-elements a g.tree).0 k in
            let (lk, f, q) = w.find-live p a e in (lk, f)) in
        let (locks, at) = all-Live g.heap (T.elements g.tree) live in
        (
          locks,
          at,
          λ old.
              rw (print_nodes-listed g.heap (T.elements g.tree) locks [] old at, tree_print) refl,
        )

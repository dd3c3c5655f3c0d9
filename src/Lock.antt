-- ===== src/Lock.antt =====
-- The lock structures and the heap that holds them (lksmith.c, struct lksmith_lock_props, struct
-- lksmith_holder and struct lksmith_lock). Addresses and lock pointers are numbers, strings are
-- lists of character codes. The tree links `entry` belong to the tree library.
use lksmith.Base.{ℕ, Bool, List, Option, some, if◌then◌else◌, ◌==◌}

abbrev pub Text : Type 0
Text = List ℕ

pub record Props : Type 0 where
  pub nlock : ℕ
  pub recursive : Bool
  pub sleeper : Bool
  pub spin_warn : Bool

-- The list of holders stands for the links `next`, and the length of `bt_frames` for `bt_len`.
pub record Holder : Type 0 where
  pub name : Text
  pub bt_frames : List Text

-- The length of `before` stands for `before_size`.
pub record Lock : Type 0 where
  pub ptr : ℕ
  pub props : Props
  pub color : ℕ
  pub holders : List Holder
  pub before : List ℕ

-- The live lock structures by address.
abbrev pub Heap : Type 0
Heap = ℕ → Option Lock

-- A write through a pointer.
abbrev pub store {ℓ} : {A : Type ℓ} → ℕ → A → (ℕ → Option A) → ℕ → Option A
store a v h b = if a == b then some v else h b

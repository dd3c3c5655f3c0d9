-- ===== src/Cond.antt =====
-- Condition variables (lksmith.c, struct lksmith_cond, lksmith_cond_find, lksmith_cond_insert,
-- lksmith_cond_prewait, lksmith_cond_postwait, and the search of lksmith_cond_predestroy), in an
-- initialized library. Each function runs under g_cond_tree_lock from its first to its last access, so a call is one step. A null pointer is 0.
pub mod Laws
pub mod Contract
pub mod Refines
use lksmith.Base.{
  ℕ, ◌+◌, ◌-◌, ◌%◌, ◌^◌, ◌≡◌, ◌≢◌, Bool, true, false, List, [], ◌∷◌, Option, none, some, ◌==◌,
  if◌then◌else◌, Outcome, done, fault, dangling,
}
use lksmith.Code.{Code, Errno, ok, err, enomem, eexist, einval}
use lksmith.Lock.{store}
use lksmith.Tree.{TreeLib}
use lksmith.Report.{Report, cond_insert_failed, cond_other_mutex, cond_in_use}

pub record Cond : Type 0 where
  pub ptr : ℕ
  pub lock : ℕ
  pub refcnt : ℕ

-- g_cond_tree and the structures in it.
pub record Conds (T : TreeLib) : Type 0 where
  pub tree : T.Tree
  pub heap : ℕ → Option Cond

module _ (T : TreeLib) where
  unfoldable pub lksmith_cond_find : ℕ → Conds T → Option ℕ
  lksmith_cond_find ptr s = T.find ptr s.tree

  -- What follows RB_INSERT, whose result is `and`.
  unfoldable pub cond_inserted : Option ℕ → T.Tree → ℕ → Cond → Conds T → Code × Option ℕ × Conds T
  cond_inserted (some and) tree cnd c s = (err eexist, none, record s { tree = tree })
  cond_inserted none tree cnd c s =
      (ok, some cnd, record { tree = tree; heap = store cnd c s.heap })

  -- `mem` is the answer of calloc; the second result is what `*cond` is set to.
  unfoldable pub lksmith_cond_insert : Option ℕ → ℕ → Conds T → Code × Option ℕ × Conds T
  unfolding cond_inserted
  lksmith_cond_insert none ptr s = (err enomem, none, s)
  lksmith_cond_insert (some cnd) ptr s =
      let (and, tree) = T.insert ptr cnd s.tree in
      cond_inserted and tree cnd (record { ptr = ptr; lock = 0; refcnt = 0 }) s

  -- What a call leaves: its code, `*out`, the conditions and what it logged.
  pub record Waits : Type 0 where
    pub code : Code
    pub out : Option ℕ
    pub conds : Conds T
    pub log : List Report

  -- The rest of lksmith_cond_prewait, with the condition's structure at `cnd`.
  unfoldable pub wait_on : ℕ → ℕ → ℕ → Conds T → Cond → Waits
  wait_on cond mutex cnd s c =
      if (c.lock == 0)
      then record {
        code = ok;
        out = some cnd;
        conds = record s {
          heap = store cnd (record c { lock = mutex; refcnt = (c.refcnt + 1) % 2 ^ 64 }) s.heap;
        };
        log = [];
      }
      else (if c.lock == mutex
          then record {
            code = ok;
            out = some cnd;
            conds = record s {
              heap = store cnd (record c { refcnt = (c.refcnt + 1) % 2 ^ 64 }) s.heap;
            };
            log = [];
          }
          else record {
            code = err einval;
            out = none;
            conds = s;
            log = record { code = einval; message = cond_other_mutex cond mutex c.lock } ∷ [];
          })

  unfoldable pub wait_at : ℕ → ℕ → ℕ → Conds T → Outcome Waits
  unfolding wait_on
  wait_at cond mutex cnd s = elim (s.heap cnd) [
    | none ↦ fault dangling
    | some c ↦ done (wait_on cond mutex cnd s c)
  ]

  -- The branch for a condition that is not in the tree, after lksmith_cond_insert.
  unfoldable pub wait_new : ℕ → ℕ → Code × Option ℕ × Conds T → Outcome Waits
  unfolding wait_at
  wait_new cond mutex (ok, some cnd, s) = wait_at cond mutex cnd s
  wait_new cond mutex (err e, out, s) = done (record {
    code = err e;
    out = none;
    conds = s;
    log = record { code = e; message = cond_insert_failed cond mutex } ∷ [];
  })
  wait_new cond mutex (_, _, s) = fault dangling

  -- A caller has its storage already, so lksmith_error_with_ti creates none.
  unfoldable pub lksmith_cond_prewait : Option ℕ → ℕ → ℕ → Conds T → Outcome Waits
  unfolding wait_new wait_at lksmith_cond_insert lksmith_cond_find
  lksmith_cond_prewait mem cond mutex s = elim (lksmith_cond_find cond s) [
    | none ↦ wait_new cond mutex (lksmith_cond_insert mem cond s)
    | some cnd ↦ wait_at cond mutex cnd s
  ]

  -- refcnt is a uint64_t.
  unfoldable pub lksmith_cond_postwait : ℕ → Conds T → Outcome (Conds T)
  lksmith_cond_postwait cnd s = elim (s.heap cnd) [
    | none ↦ fault dangling
    | some c ↦
        let refcnt = (c.refcnt + 2 ^ 64 - 1) % 2 ^ 64 in
        let lock = if refcnt == 0 then 0 else c.lock in
        done (record s { heap = store cnd (record c { refcnt = refcnt; lock = lock }) s.heap })
  ]

  -- The reference count that lksmith_cond_predestroy reads.
  unfoldable pub cond_refcnt : Option ℕ → Conds T → Outcome ℕ
  cond_refcnt none s = done 0
  cond_refcnt (some cnd) s = elim (s.heap cnd) [ none ↦ fault dangling | some c ↦ done c.refcnt ]

  -- lksmith_cond_predestroy once it has the lock: its code, and the report of a failure.
  unfoldable pub cond_unused : ℕ → Conds T → Outcome (Code × List Report)
  unfolding cond_refcnt lksmith_cond_find
  cond_unused cond s = elim (cond_refcnt (lksmith_cond_find cond s) s) [
    | fault f ↦ fault f
    | done refcnt ↦
        if refcnt == 0
        then done (ok, [])
        else done (err einval, record { code = einval; message = cond_in_use cond } ∷ [])
  ]

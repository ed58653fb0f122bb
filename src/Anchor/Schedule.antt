-- ===== src/Anchor/Schedule.antt =====
-- One writer and one reader of the anchor at the same time: every order of their single accesses.
-- Each access is one step on one memory, as on a machine whose loads and stores take effect in order.
use fast_livo_ug.Base.{ℕ, suc, List, [], ◌∷◌, ◌≡◌}
use fast_livo_ug.Anchor.{ImuTimeAnchorState, Anchor, Store, store, write_stores, Reader, read_step}

-- The writer between its calls, or in a call with the stores still to make.
pub data Writer : Type 0 where
  idle : Writer
  storing : List Store → Writer

pub record System : Type 0 where
  pub memory : ImuTimeAnchorState
  pub writer : Writer
  pub reader : Reader

-- The systems reached from `s₀`, with the number of writes begun.
pub data Reach (s₀ : System) : ℕ → System → Type 0 where
  here : Reach s₀ 0 s₀
  begin_write :
      {n : ℕ} {s : System}
      → Reach s₀ n s
      → (a : Anchor) → s.writer ≡ idle
      → Reach s₀ (suc n) (record s { writer = storing (write_stores s.memory.write_sequence a) })
  next_store :
      {n : ℕ} {s : System}
      → Reach s₀ n s
      → (x : Store) (rest : List Store) → s.writer ≡ storing (x ∷ rest)
      → Reach s₀ n (record s { memory = store x s.memory; writer = storing rest })
  end_write :
      {n : ℕ} {s : System}
      → Reach s₀ n s
      → s.writer ≡ storing []
      → Reach s₀ n (record s { writer = idle })
  next_load :
      {n : ℕ} {s : System}
      → Reach s₀ n s
      → Reach s₀ n (record s { reader = read_step s.memory s.reader })

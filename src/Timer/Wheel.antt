-- ===== src/Timer/Wheel.antt =====
-- kernel/time/timer_wheel.c: the wheel of one CPU. `wheel_of` picks it by the CPU that the arch
-- layer names, and g_ulmk_lock_timer serialises the calls, so one wheel and whole calls are enough.
-- A `struct ulmk_timeout` is its address; its fields are functions of that address.
use ulmk_microkernel.Base.{
  ℕ, zero, suc, ◌+◌, ◌*◌, ◌%◌, ◌^◌, Bool, true, false, ◌||◌, not, none, some, List, [], ◌∷◌, ltb,
  ◌==◌, if◌then◌else◌, get_or, set, length, bit_or, bit_and, ok, einval,
}
use ulmk_microkernel.Bits.{complement}
use ulmk_microkernel.Dlist.{Dlist}
use ulmk_microkernel.Timer.Index.{
  lvl_size, lvl_depth, u64_mod, timeout_max, calc_wheel_index, is_edge, edge_bucket,
}

-- `struct timer_wheel` with the nodes on its buckets, and the fields of every timeout. `cb` is the
-- address of the callback, 0 for NULL.
pub record Timers (D : Dlist) : Type 0 where
  pub links : D.Links
  pub clk : ℕ
  pub pending : List ℕ
  pub expires : ℕ → ℕ
  pub cb : ℕ → ℕ

-- The address of `buckets[lvl][bucket]`, and of the list `pending` on the stack of the tick.
abbrev pub bucket_at : ℕ → ℕ → ℕ
bucket_at lvl bucket = lvl * lvl_size + bucket

abbrev pub out_list : ℕ
out_list = lvl_depth * lvl_size

abbrev update : (ℕ → ℕ) → ℕ → ℕ → ℕ → ℕ
update f a v b = if a == b then v else f b

module _ (D : Dlist) where
  unfoldable pub detach : D.Links → ℕ → D.Links
  detach s to = if D.is_linked s to then D.remove s to else s

  unfoldable pub place : Timers D → ℕ → ℕ → ℕ × ℕ → Timers D
  place t to expires (lvl, bucket) = record t {
    links = D.append (detach t.links to) (bucket_at lvl bucket) to;
    expires = update t.expires to expires;
    pending = set t.pending lvl (bit_or (get_or t.pending lvl 0) (2 ^ bucket));
  }

  -- ulmk_timer_add, for a `to` that is not NULL
  unfoldable pub add : Timers D → ℕ → ℕ → ℕ × Timers D
  add t to ticks =
      let delta = if ticks == 0 then 1 else ticks in
      let expires = (t.clk + delta) % u64_mod in
      if t.cb to == 0 || ltb timeout_max delta
      then (einval, t)
      else (ok, place t to expires (calc_wheel_index expires t.clk))

  -- ulmk_timer_cancel, for a `to` that is not NULL
  unfoldable pub cancel : Timers D → ℕ → Bool × Timers D
  cancel t to =
      if D.is_linked t.links to
      then (true, record t { links = D.node_init (D.remove t.links to) to })
      else (false, t)

  -- The loop of collect_bucket, over the nodes that the bucket holds.
  unfoldable pub move_nodes : List ℕ → D.Links → D.Links
  move_nodes [] s = s
  move_nodes (n ∷ ns) s = move_nodes ns (D.append (D.remove s n) out_list n)

  unfoldable pub collect_bucket : Timers D → ℕ → ℕ → Timers D
  collect_bucket t lvl bucket = record t {
    links = move_nodes (D.nodes t.links (bucket_at lvl bucket)) t.links;
    pending = set t.pending lvl (bit_and (get_or t.pending lvl 0) (complement 64 (2 ^ bucket)));
  }

  -- One round of the loop over the levels.
  unfoldable pub collect_level : Timers D → ℕ → Timers D
  collect_level t lvl =
      let bucket = edge_bucket lvl t.clk in
      if not (is_edge lvl t.clk)
      then t
      else (if bit_and (get_or t.pending lvl 0) (2 ^ bucket) == 0
          then t
          else collect_bucket t lvl bucket)

  -- The rounds from `lvl` on, `n` of them.
  unfoldable pub collect_levels : ℕ → ℕ → Timers D → Timers D
  collect_levels zero lvl t = t
  collect_levels (suc n) lvl t = collect_levels n (lvl + 1) (collect_level t lvl)

  -- wheel_advance_collect, after sys_dlist_init of the list on the stack
  unfoldable pub wheel_advance_collect : Timers D → Timers D
  wheel_advance_collect t = collect_levels lvl_depth 0 (record t { clk = (t.clk + 1) % u64_mod })

  -- The callback call of expire_list; what a callback does is the parameter `run`.
  unfoldable pub call_back : (ℕ → ℕ → Timers D → Timers D) → ℕ → Timers D → Timers D
  call_back run n t = if t.cb n == 0 then t else run (t.cb n) n t

  -- expire_list, on `fuel` rounds of its loop.
  unfoldable pub expire_list : (ℕ → ℕ → Timers D → Timers D) → ℕ → Timers D → Timers D
  expire_list run zero t = t
  expire_list run (suc fuel) t = elim (D.get t.links out_list) [
    | none ↦ t
    | some (n, links) ↦
        expire_list run fuel (call_back run n (record t { links = D.node_init links n }))
  ]

  -- The drain at the end of a tick: a round for each timer that it took off the wheel.
  unfoldable pub expire_all : (ℕ → ℕ → Timers D → Timers D) → Timers D → Timers D
  expire_all run t = expire_list run (length (D.nodes t.links out_list)) t

  -- sys_dlist_init of the list `pending`
  unfoldable pub fresh_list : Timers D → Timers D
  fresh_list t = record t { links = D.list_init t.links out_list }

  -- ulmk_timer_tick
  unfoldable pub tick : (ℕ → ℕ → Timers D → Timers D) → Timers D → Timers D
  tick run t = expire_all run (wheel_advance_collect (fresh_list t))

  -- ulmk_timer_run: the same without the step of the clock
  unfoldable pub run_now : (ℕ → ℕ → Timers D → Timers D) → Timers D → Timers D
  run_now run t = expire_all run (collect_levels lvl_depth 0 (fresh_list t))

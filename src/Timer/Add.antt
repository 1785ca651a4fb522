-- ===== src/Timer/Add.antt =====
-- ulmk_timer_add and ulmk_timer_cancel.
use ulmk_microkernel.Base.{
  ℕ, ◌+◌, ◌%◌, ◌^◌, ◌≤◌, ◌<◌, ◌≡◌, ◌≢◌, ◌⊎◌, refl, ◌∙◌, false, not, ◌&&◌, ◌||◌, arith, List, ◌==◌,
  if◌then◌else◌, ==→eq, Bool-cases, inl, inr, length, length-set, get_or, set, get_or-set, bit_or,
  ok, einval,
}
use ulmk_microkernel.Bits.{bit, bit-set}
use ulmk_microkernel.Dlist.{Dlist, mem, mem-snoc}
use ulmk_microkernel.Timer.Index.{
  lvl_size, lvl_depth, u64_mod, timeout_max, calc_index, calc_wheel_index,
}
use ulmk_microkernel.Timer.Expiry.{level_of, calc_wheel_index_level, level_of-IsLevel}
use ulmk_microkernel.Timer.Wheel.{Timers, bucket_at, detach, place, add, cancel}
use ulmk_microkernel.Timer.Places.{
  holds, IsTidy, holds-move, linked-move, move-IsTidy, holds-unlinked, linked-unlinked,
  unlinked-IsTidy,
}
use ulmk_microkernel.Timer.Collect.{IsWheel, IsParked, same_bucket}

-- The delta that ulmk_timer_add uses: no timer is due at once.
abbrev pub effective : ℕ → ℕ
effective ticks = if ticks == 0 then 1 else ticks

pub calc_index-lt : (expires lvl : ℕ) → calc_index expires lvl < lvl_size
unfolding calc_index
calc_index-lt expires lvl = omega arith

module _ (D : Dlist) where
  -- An operation that puts one timer on the list at `l` and leaves the others where they are.
  record Put (s u : D.Links) (to l : ℕ) : Type 0 where
    tidy : IsTidy D u
    place : (i m : ℕ) → holds D u i m ≡ (if to == m then l == i else holds D s i m)
    linked : (m : ℕ) → D.is_linked u m ≡ (to == m || D.is_linked s m)

  put-fresh :
      (s : D.Links) (to l : ℕ)
      → D.is_linked s to ≡ false
      → IsTidy D s
      → Put s (D.append s l to) to l
  put-fresh s to l off tidy =
      let free = λ (k : ℕ).
        let x : mem to (D.nodes s k) ≡ false = ground (arith, D.linked_of_mem s k to) in x in
      let spot = λ (i m : ℕ).
        let x : holds D (D.append s l to) i m ≡ (if to == m then l == i else holds D s i m) =
          ground (
            arith,
            D.nodes-append s l to free i,
            mem-snoc m to (D.nodes s i),
            free i,
            ==→eq to m,
          ) in
        x in
      record {
        tidy = λ m linked. elim (Bool-cases (to == m)) [
          | inl e ↦ (l, ground (arith, spot l m))
          | inr e ↦
              let (x, there) = tidy m (ground (arith, D.linked-append s l to free m)) in
              (x, ground (arith, spot x m))
        ];
        place = spot;
        linked = D.linked-append s l to free;
      }

  put : (s : D.Links) (to l : ℕ) → IsTidy D s → Put s (D.append (detach D s to) l to) to l
  unfolding detach
  put s to l tidy = elim (Bool-cases (D.is_linked s to)) [
    | inr off ↦ rw off (put-fresh s to l off tidy)
    | inl on ↦
        let (k, h) = tidy to on in
        rw on (record {
          tidy = move-IsTidy D s k l to h tidy;
          place = holds-move D s k l to h;
          linked = linked-move D s k l to h;
        })
  ]

  pending-set :
      (ws : List ℕ) (lvl bucket k b : ℕ)
      → length ws ≡ lvl_depth
      → lvl < lvl_depth
      → bit (get_or (set ws lvl (bit_or (get_or ws lvl 0) (2 ^ bucket))) k 0) b
        ≡ ((lvl == k && bucket == b) || bit (get_or ws k 0) b)
  pending-set ws lvl bucket k b hw hl =
      let v = bit_or (get_or ws lvl 0) (2 ^ bucket) in
      ground (
        arith,
        get_or-set ws lvl k v 0 (omega arith),
        bit-set (get_or ws lvl 0) bucket b,
        ==→eq lvl k,
      )

  -- The timer has been put on a bucket; the wheel is sound and the rest is untouched.
  pub record Placed (t u : Timers D) (to lvl bucket : ℕ) : Type 0 where
    pub wheel : IsWheel D u
    pub parked : IsParked D u to (bucket_at lvl bucket)
    pub others : (m : ℕ) → (to == m) ≡ false → (i : ℕ) → holds D u.links i m ≡ holds D t.links i m
    pub same_clk : u.clk ≡ t.clk

  place-Placed :
      (t : Timers D) (to expires lvl bucket : ℕ)
      → lvl < lvl_depth
      → bucket < lvl_size
      → IsWheel D t
      → Placed t (place D t to expires (lvl, bucket)) to lvl bucket
  unfolding place
  place-Placed t to expires lvl bucket hl hb w =
      let p = put t.links to (bucket_at lvl bucket) w.tidy in
      record {
        wheel = record {
          tidy = p.tidy;
          words = length-set t.pending lvl _ ∙ w.words;
          covered = λ k b n hk hn h. ground (
            arith,
            pending-set t.pending lvl bucket k b w.words hl,
            p.place (bucket_at k b) n,
            same_bucket lvl bucket k b hb hn,
            w.covered k b n hk hn,
          );
        };
        parked = λ i. ground (arith, p.place i to);
        others = λ m e i. ground (arith, p.place i m);
        same_clk = refl;
      }

  -- The state that an accepted ulmk_timer_add leaves.
  abbrev pub added : Timers D → ℕ → ℕ → Timers D
  added t to ticks =
      let expires = (t.clk + effective ticks) % u64_mod in
      place D t to expires (calc_wheel_index expires t.clk)

  -- ulmk_timer_add refuses a timer with no callback and a delta beyond ULMK_TIMER_TIMEOUT_MAX, and
  -- then changes nothing; every other call is accepted.
  pub add_outcome :
      (t : Timers D) (to ticks : ℕ)
      → (((t.cb to ≡ 0) ⊎ (timeout_max < effective ticks)) → add D t to ticks ≡ (einval, t))
        × (t.cb to ≢ 0 → effective ticks ≤ timeout_max → add D t to ticks ≡ (ok, added t to ticks))
  unfolding add
  add_outcome t to ticks =
      (λ h. elim h [ inl e ↦ ground arith | inr e ↦ ground arith ], λ h e. ground arith)

  no_wrap : (a : ℕ) → a < u64_mod → a % u64_mod ≡ a
  no_wrap a h = omega arith

  -- Where an accepted timer stands: on the bucket of its level and rounded expiry, on no other
  -- list, every other timer where it was, the pending bits covering all, `expires` at clk + delta.
  pub added-Placed :
      (t : Timers D) (to ticks : ℕ)
      → effective ticks ≤ timeout_max
      → t.clk + effective ticks < u64_mod
      → IsWheel D t
      → let at = t.clk + effective ticks in
        let lvl = level_of (effective ticks) in
        Placed t (added t to ticks) to lvl (calc_index at lvl)
        × ((added t to ticks).expires to ≡ at)
  unfolding place
  added-Placed t to ticks h hw w =
      let at = t.clk + effective ticks in
      let lvl = level_of (effective ticks) in
      rw (no_wrap (t.clk + effective ticks) hw, calc_wheel_index_level t.clk (effective ticks) hw h)
        (
          place-Placed t to at lvl (calc_index at lvl) (level_of-IsLevel (effective ticks))
              (calc_index-lt at lvl) w,
          ground arith,
        )

  -- ulmk_timer_cancel takes a timer off whatever list it is on, says whether it was on one, and
  -- leaves every other timer where it is and the wheel sound.
  pub cancel_lem :
      (t : Timers D) (to : ℕ)
      → IsWheel D t
      → let (removed, u) = cancel D t to in
        (removed ≡ D.is_linked t.links to)
        × (D.is_linked u.links to ≡ false)
        × ((i m : ℕ) → holds D u.links i m ≡ (not (to == m) && holds D t.links i m))
        × IsWheel D u
  unfolding cancel
  cancel_lem t to w = elim (Bool-cases (D.is_linked t.links to)) [
    | inr off ↦
        rw off (refl, off, λ i m. ground (arith, D.linked_of_mem t.links i to, ==→eq to m), w)
    | inl on ↦
        let (k, h) = w.tidy to on in
        rw on (
          refl,
          ground (arith, linked-unlinked D t.links k to h to),
          holds-unlinked D t.links k to h,
          record {
            tidy = unlinked-IsTidy D t.links k to h w.tidy;
            words = w.words;
            covered = λ l b m hl hb e.
                w.covered l b m hl hb
                  (ground (arith, holds-unlinked D t.links k to h (bucket_at l b) m));
          },
        )
  ]

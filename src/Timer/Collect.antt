-- ===== src/Timer/Collect.antt =====
-- What one tick takes off the wheel.
use ulmk_microkernel.Base.{
  ℕ, zero, suc, ◌+◌, ◌^◌, ◌<◌, ◌≡◌, refl, ◌∙◌, Bool, true, false, not, ◌&&◌, ◌||◌, arith, List,
  ◌==◌, if◌then◌else◌, ==→eq, Bool-cases, inl, inr, get_or, set, length, length-set, get_or-set,
  bit_and,
}
use ulmk_microkernel.Bits.{bit, complement, bit_and-pow, bit-clear}
use ulmk_microkernel.Dlist.{Dlist}
use ulmk_microkernel.Timer.Index.{lvl_size, lvl_depth, is_edge, edge_bucket}
use ulmk_microkernel.Timer.Wheel.{
  Timers, bucket_at, out_list, move_nodes, collect_bucket, collect_level,
}
use ulmk_microkernel.Timer.Places.{holds, IsTidy, Moved, move_nodes-Moved}

pub edge_bucket-lt : (lvl clk : ℕ) → edge_bucket lvl clk < lvl_size
unfolding edge_bucket
edge_bucket-lt lvl clk = omega arith

-- Different buckets have different addresses, and none is the list of the expired.
pub same_bucket :
    (lvl bucket k b : ℕ)
    → bucket < lvl_size
    → b < lvl_size
    → bucket_at lvl bucket ≡ bucket_at k b
    → (lvl ≡ k) × (bucket ≡ b)
same_bucket lvl bucket k b h1 h2 e = omega arith

pub out-ne-bucket :
    (lvl bucket : ℕ)
    → lvl < lvl_depth
    → bucket < lvl_size
    → (out_list == bucket_at lvl bucket) ≡ false
out-ne-bucket lvl bucket h1 h2 = ground arith

-- `pending` after the bit of a bucket has been cleared.
pending-clear :
    (ws : List ℕ) (lvl bucket k b : ℕ)
    → length ws ≡ lvl_depth
    → lvl < lvl_depth
    → bucket < lvl_size
    → b < lvl_size
    → bit (get_or (set ws lvl (bit_and (get_or ws lvl 0) (complement 64 (2 ^ bucket)))) k 0) b
      ≡ (not (lvl == k && bucket == b) && bit (get_or ws k 0) b)
pending-clear ws lvl bucket k b hw hl h1 h2 =
    let v = bit_and (get_or ws lvl 0) (complement 64 (2 ^ bucket)) in
    ground (
      arith,
      get_or-set ws lvl k v 0 (omega arith),
      bit-clear 64 (get_or ws lvl 0) bucket b h1 h2,
      ==→eq lvl k,
    )

module _ (D : Dlist) where
  -- The bit of every bucket that holds a timer is set in `pending`.
  pub record IsWheel (t : Timers D) : Type 0 where
    pub tidy : IsTidy D t.links
    pub words : length t.pending ≡ lvl_depth
    pub covered :
        (lvl bucket n : ℕ)
        → lvl < lvl_depth
        → bucket < lvl_size
        → holds D t.links (bucket_at lvl bucket) n ≡ true
        → bit (get_or t.pending lvl 0) bucket ≡ true

  -- The timer is on the list at `l` and on no other.
  abbrev pub IsParked : Timers D → ℕ → ℕ → Type 0
  IsParked t n l = (i : ℕ) → holds D t.links i n ≡ (l == i)

  -- A step that moves the timers that `taken` names to the list of the expired, and no others.
  pub record Expired (t u : Timers D) (taken : ℕ → Bool) : Type 0 where
    pub wheel : IsWheel u
    pub place :
        (i m : ℕ) → holds D u.links i m ≡ (if taken m then out_list == i else holds D t.links i m)
    pub same_clk : u.clk ≡ t.clk
    pub same_linked : (m : ℕ) → D.is_linked u.links m ≡ D.is_linked t.links m

  bucket-Moved :
      (t : Timers D) (src : ℕ)
      → IsWheel t
      → Moved D t.links (move_nodes D (D.nodes t.links src) t.links) (D.nodes t.links src)
  bucket-Moved t src w =
      move_nodes-Moved D (D.nodes t.links src) t.links w.tidy
        (λ m h. D.linked_of_mem t.links src m h)

  collect_bucket-Expired :
      (t : Timers D) (lvl bucket : ℕ)
      → lvl < lvl_depth
      → bucket < lvl_size
      → IsWheel t
      → Expired t (collect_bucket D t lvl bucket) (λ m. holds D t.links (bucket_at lvl bucket) m)
  unfolding collect_bucket
  collect_bucket-Expired t lvl bucket hl hb w =
      let moved = bucket-Moved t (bucket_at lvl bucket) w in
      record {
        wheel = record {
          tidy = moved.tidy;
          words = length-set t.pending lvl _ ∙ w.words;
          covered = λ k b n hk hn h.
              let before = moved.place (bucket_at k b) n in
              ground (
                arith,
                pending-clear t.pending lvl bucket k b w.words hl hb hn,
                before,
                out-ne-bucket k b hk hn,
                w.covered k b n hk hn,
              );
        };
        place = moved.place;
        same_clk = refl;
        same_linked = moved.linked;
      }

  Expired-as :
      (t u : Timers D) (f g : ℕ → Bool) → ((m : ℕ) → f m ≡ g m) → Expired t u f → Expired t u g
  Expired-as t u f g e x = record {
    wheel = x.wheel;
    place = λ i m. ground (arith, x.place i m, e m);
    same_clk = x.same_clk;
    same_linked = x.same_linked;
  }

  pub Expired-none :
      (t : Timers D) (f : ℕ → Bool) → ((m : ℕ) → f m ≡ false) → IsWheel t → Expired t t f
  Expired-none t f e w = record {
    wheel = w;
    place = λ i m. ground (arith, e m);
    same_clk = refl;
    same_linked = λ m. refl;
  }

  -- The timers that the round for `lvl` takes.
  abbrev pub taken_at : Timers D → ℕ → ℕ → Bool
  taken_at t lvl m = is_edge lvl t.clk && holds D t.links (bucket_at lvl (edge_bucket lvl t.clk)) m

  uncovered :
      (t : Timers D) (lvl bucket m : ℕ)
      → lvl < lvl_depth
      → bucket < lvl_size
      → IsWheel t
      → bit (get_or t.pending lvl 0) bucket ≡ false
      → holds D t.links (bucket_at lvl bucket) m ≡ false
  uncovered t lvl bucket m hl hb w e = ground (arith, w.covered lvl bucket m hl hb)

  pub collect_level-Expired :
      (t : Timers D) (lvl : ℕ)
      → lvl < lvl_depth
      → IsWheel t
      → Expired t (collect_level D t lvl) (taken_at t lvl)
  unfolding collect_level
  collect_level-Expired t lvl hl w =
      let b = edge_bucket lvl t.clk in
      let hb = edge_bucket-lt lvl t.clk in
      elim (Bool-cases (is_edge lvl t.clk)) [
        | inr off ↦ rw off (Expired-none t (taken_at t lvl) (λ m. ground arith) w)
        | inl edge ↦
            Expired-as t _ (λ m. holds D t.links (bucket_at lvl b) m) (taken_at t lvl)
              (λ m. ground arith)
              (rw (edge, bit_and-pow (get_or t.pending lvl 0) b)
                (elim (Bool-cases (bit (get_or t.pending lvl 0) b)) [
                  | inl full ↦ rw full (collect_bucket-Expired t lvl b hl hb w)
                  | inr clear ↦
                      rw clear (Expired-none t _ (λ m. uncovered t lvl b m hl hb w clear) w)
                ]))
      ]

  -- The timers that the rounds from `lvl` on take, `n` of them.
  abbrev pub taken_by : ℕ → ℕ → Timers D → ℕ → Bool
  taken_by zero lvl t m = false
  taken_by (suc n) lvl t m = taken_at t lvl m || taken_by n (lvl + 1) t m

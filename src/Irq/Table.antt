-- ===== src/Irq/Table.antt =====
-- kernel/irq/irq.c: the table of interrupt bindings and its handlers, as compiled with
-- ULMK_CONFIG_IRQ_ATTACH and ULMK_CONFIG_BOARD_IRQ_CTRL. The array is the list of its entries. What
-- notif_by_id and ulmk_kern_notif_create return are arguments; other calls are recorded, latest first.
use ulmk_microkernel.Base.{
  ℕ, ◌^◌, Bool, true, false, not, ◌&&◌, ◌||◌, Option, none, some, List, [], ◌∷◌, ltb, leb, ◌==◌,
  if◌then◌else◌, ok, einval, enospc,
}

-- `ulmk_irq_binding_t`; `notif` is the address of the object and 0 is NULL in the other pointers.
pub record Binding : Type 0 where
  pub srpn : ℕ
  pub notif : Option ℕ
  pub bit_no : ℕ
  pub enabled : Bool
  pub attach_fn : ℕ
  pub attach_data : ℕ
  pub owner : ℕ
  pub owned_notif : Bool

-- The fields of `struct ulmk_percpu` that say which attached function runs; 0 is NULL.
pub record Attach : Type 0 where
  pub in_irq_attach : Bool
  pub irq_attach_owner : ℕ
  pub irq_attach_srpn : ℕ

-- Calls of the arch layer, of the board and of notifications. An attached function is called with its
-- data, in its owner's stack, while the fields of the CPU say so.
pub data IrqCall : Type 0 where
  board_irq_connect : ℕ → IrqCall
  board_irq_disconnect : ℕ → IrqCall
  src_configure : ℕ → IrqCall
  src_register : ℕ → ℕ → IrqCall
  src_enable : ℕ → IrqCall
  src_disable : ℕ → IrqCall
  src_ack : ℕ → IrqCall
  attach_call : ℕ → ℕ → ℕ → Attach → IrqCall
  destroy_notif : ℕ → IrqCall
  signal_notif : ℕ → ℕ → IrqCall

pub record Irq : Type 0 where
  pub table : List Binding
  pub attach : Attach
  pub calls : List IrqCall

abbrev pub is_bound : Binding → Bool
is_bound b = elim b.notif [ none ↦ false | some n ↦ true ]

-- ulmk_irq_binding_by_srpn
unfoldable pub binding_by_srpn : List Binding → ℕ → Option Binding
binding_by_srpn [] srpn = none
binding_by_srpn (b ∷ bs) srpn =
    let rest = binding_by_srpn bs srpn in if is_bound b && b.srpn == srpn then some b else rest

-- The entry that ulmk_irq_binding_by_srpn finds is overwritten.
unfoldable pub update_binding : List Binding → ℕ → Binding → List Binding
update_binding [] srpn v = []
update_binding (b ∷ bs) srpn v =
    let rest = update_binding bs srpn v in if is_bound b && b.srpn == srpn then v ∷ bs else b ∷ rest

-- ulmk_irq_binding_add, with what irq_attach_common writes to the entry afterwards; `none` when no
-- entry is free.
unfoldable pub binding_add : List Binding → Binding → Option (List Binding)
binding_add [] v = none
binding_add (b ∷ bs) v =
    let rest = binding_add bs v in
    if is_bound b then elim rest [ none ↦ none | some bs' ↦ some (b ∷ bs') ] else some (v ∷ bs)

-- irq_binding_clear
abbrev pub cleared_binding : Binding
cleared_binding = record {
  srpn = 0;
  notif = none;
  bit_no = 0;
  enabled = false;
  attach_fn = 0;
  attach_data = 0;
  owner = 0;
  owned_notif = false;
}

abbrev pub bad_srpn : ℕ → Bool
bad_srpn srpn = srpn == 0 || leb 256 srpn

abbrev pub plain_binding : ℕ → ℕ → ℕ → Binding
plain_binding srpn notif bit_no = record cleared_binding {
  srpn = srpn;
  notif = some notif;
  bit_no = bit_no;
}

abbrev pub attached_binding : ℕ → ℕ → ℕ → ℕ → ℕ → Binding
attached_binding srpn notif fn data_addr owner = record cleared_binding {
  srpn = srpn;
  notif = some notif;
  attach_fn = fn;
  attach_data = data_addr;
  owner = owner;
  owned_notif = true;
}

-- ulmk_kern_irq_bind; `notif` is what notif_by_id returns.
unfoldable pub irq_bind : Irq → ℕ → Option ℕ → ℕ → ℕ × Irq
irq_bind t srpn notif bit_no =
    if bad_srpn srpn || ltb 31 bit_no then (einval, t) else elim (binding_by_srpn t.table srpn) [
      | some b ↦ (einval, t)
      | none ↦ elim notif [
        | none ↦ (einval, t)
        | some n ↦ elim (binding_add t.table (plain_binding srpn n bit_no)) [
          | none ↦ (enospc, t)
          | some table ↦ (
            ok,
            record t {
              table = table;
              calls = src_configure srpn ∷ board_irq_connect srpn ∷ t.calls;
            },
          )
        ]
      ]
    ]

-- ulmk_kern_irq_bind_hw
unfoldable pub irq_bind_hw : Irq → ℕ → Option ℕ → ℕ → ℕ → ℕ × Irq
irq_bind_hw t srpn notif bit_no src_reg =
    if bad_srpn srpn || ltb 31 bit_no || src_reg == 0
    then (einval, t)
    else elim (binding_by_srpn t.table srpn) [
      | some b ↦ (einval, t)
      | none ↦ elim notif [
        | none ↦ (einval, t)
        | some n ↦ elim (binding_add t.table (plain_binding srpn n bit_no)) [
          | none ↦ (enospc, t)
          | some table ↦ (
            ok,
            record t {
              table = table;
              calls = src_register srpn src_reg ∷ board_irq_connect srpn ∷ t.calls;
            },
          )
        ]
      ]
    ]

-- irq_attach_common: `cur` is the current thread, `nid` the notification created, 0 for failure,
-- `notif` what notif_by_id returns for it, and `src_reg` the source register of
-- ulmk_kern_irq_attach_hw. Returns 0, ULMK_NOTIF_INVALID, on error.
unfoldable pub irq_attach : Irq → ℕ → ℕ → ℕ → Option ℕ → Option ℕ → ℕ → Option ℕ → ℕ × Irq
irq_attach t srpn fn data_addr src_reg cur nid notif =
    if bad_srpn srpn || fn == 0
    then (0, t)
    else (if elim src_reg [ none ↦ false | some r ↦ r == 0 ]
        then (0, t)
        else elim (binding_by_srpn t.table srpn) [
          | some b ↦ (0, t)
          | none ↦ elim cur [
            | none ↦ (0, t)
            | some owner ↦ if nid == 0 then (0, t) else elim notif [
              | none ↦ (0, record t { calls = destroy_notif nid ∷ t.calls })
              | some n ↦ elim (binding_add t.table (attached_binding srpn n fn data_addr owner)) [
                | none ↦ (0, record t { calls = destroy_notif nid ∷ t.calls })
                | some table ↦ (
                  nid,
                  record t {
                    table = table;
                    calls = elim src_reg [
                      | none ↦ src_configure srpn ∷ board_irq_connect srpn ∷ t.calls
                      | some r ↦ src_register srpn r ∷ board_irq_connect srpn ∷ t.calls
                    ];
                  },
                )
              ]
            ]
          ]
        ])

-- ulmk_kern_irq_detach
unfoldable pub irq_detach : Irq → ℕ → ℕ × Irq
irq_detach t srpn = if bad_srpn srpn then (einval, t) else elim (binding_by_srpn t.table srpn) [
  | none ↦ (einval, t)
  | some b ↦
      let off = board_irq_disconnect srpn ∷ src_ack srpn ∷ src_disable srpn ∷ t.calls in
      if b.attach_fn == 0 then (einval, t) else (
        ok,
        record t {
          table = update_binding t.table srpn cleared_binding;
          calls = elim b.notif [
            | none ↦ off
            | some n ↦ if b.owned_notif && not (n == 0) then destroy_notif n ∷ off else off
          ];
        },
      )
]

-- ulmk_kern_irq_enable and ulmk_kern_irq_disable
unfoldable pub irq_enable : Irq → ℕ → ℕ × Irq
irq_enable t srpn = if bad_srpn srpn then (einval, t) else elim (binding_by_srpn t.table srpn) [
  | none ↦ (einval, t)
  | some b ↦ (
    ok,
    record t {
      table = update_binding t.table srpn (record b { enabled = true });
      calls = src_enable srpn ∷ t.calls;
    },
  )
]

unfoldable pub irq_disable : Irq → ℕ → ℕ × Irq
irq_disable t srpn = if bad_srpn srpn then (einval, t) else elim (binding_by_srpn t.table srpn) [
  | none ↦ (einval, t)
  | some b ↦ (
    ok,
    record t {
      table = update_binding t.table srpn (record b { enabled = false });
      calls = src_ack srpn ∷ src_disable srpn ∷ t.calls;
    },
  )
]

-- ulmk_kern_irq_ack
unfoldable pub irq_ack : Irq → ℕ → ℕ × Irq
irq_ack t srpn = if bad_srpn srpn then (einval, t) else elim (binding_by_srpn t.table srpn) [
  | none ↦ (einval, t)
  | some b ↦
      if b.enabled && b.attach_fn == 0
      then (ok, record t { calls = src_enable srpn ∷ src_ack srpn ∷ t.calls })
      else (ok, record t { calls = src_ack srpn ∷ t.calls })
]

-- ulmk_kern_irq_dispatch; `notify` is what the attached function returns.
unfoldable pub irq_dispatch : Irq → ℕ → Bool → Irq
irq_dispatch t srpn notify = elim (binding_by_srpn t.table srpn) [
  | none ↦ t
  | some b ↦ elim b.notif [
    | none ↦ t
    | some n ↦
        if not b.enabled
        then t
        else (if not (b.attach_fn == 0)
            then (let during : Attach = record {
              in_irq_attach = true;
              irq_attach_owner = b.owner;
              irq_attach_srpn = srpn;
            } in
                let over : Attach = record {
                  in_irq_attach = false;
                  irq_attach_owner = 0;
                  irq_attach_srpn = 0;
                } in
                let called = attach_call b.attach_fn b.attach_data b.owner during ∷ t.calls in
                if notify
                then record t {
                  attach = over;
                  calls = signal_notif n (2 ^ b.bit_no) ∷ src_ack srpn ∷ called;
                }
                else record t { attach = over; calls = called })
            else record t { calls = signal_notif n (2 ^ b.bit_no) ∷ src_disable srpn ∷ t.calls })
  ]
]

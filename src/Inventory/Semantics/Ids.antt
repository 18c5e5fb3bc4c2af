-- ===== src/Inventory/Semantics/Ids.antt =====
-- Entries with different ids are all added to the inventory's map.
use ferricov.Base.{
  ℕ, ◌+◌, ◌≤◌, ◌≡◌, refl, ap, ◌∙◌, false, List, [], ◌∷◌, ◌++◌, map, Option, none, some, ok,
  if◌then◌else◌, arith, map-append, Bool-cases, Option-cases, inl, inr,
}
use ferricov.Base.Bytes.{Bytes, bytes_eq, bytes_eq_refl, bytes_eq→eq, mem}
use ferricov.Base.Dict.{dict_of, get, put, get-put}
use ferricov.Base.Sets.{has_repeat}
use ferricov.Cases.Policy.{Entry, Command}
use ferricov.Cases.Inventory.{Maps, add_entries, add_commands, inventory_maps}
use ferricov.Inventory.Semantics.{Item, Inventory, options_of, positionals_of, item_of, entries_of}

-- How often an id is in a list.
times : Bytes → List Bytes → ℕ
times id [] = 0
times id (j ∷ js) = (if bytes_eq j id then 1 else 0) + times id js

times-append : (id : Bytes) (is js : List Bytes) → times id (is ++ js) ≡ times id is + times id js
unfolding times
times-append id [] js = omega arith
times-append id (i ∷ is) js = omega (arith, times-append id is js)

times-absent : (id : Bytes) (is : List Bytes) → mem id is ≡ false → times id is ≡ 0
unfolding times
times-absent id [] h = refl
times-absent id (i ∷ is) h = ground (arith, times-absent id is)

times-le-one : (id : Bytes) (is : List Bytes) → has_repeat is ≡ false → times id is ≤ 1
unfolding times
times-le-one id [] h = omega arith
times-le-one id (i ∷ is) h = ground (arith, times-le-one id is, times-absent i is, bytes_eq→eq i id)

abbrev id_of : Entry → Bytes
id_of e = e.id

abbrev ids : List Entry → List Bytes
ids es = map id_of es

abbrev there {ℓ} : {A : Type ℓ} → Option A → ℕ
there none = 0
there (some a) = 1

-- No id is in the map and among the entries, nor twice among the entries.
abbrev IsFresh : List (Bytes × Entry) → List Bytes → Type 0
IsFresh entries is = (id : Bytes) → there (get id entries) + times id is ≤ 1

step-IsFresh :
    (e : Entry) (is : List Bytes) (entries : List (Bytes × Entry))
    → IsFresh entries (e.id ∷ is)
    → IsFresh (put e.id e entries) is
unfolding times
step-IsFresh e is entries fresh id =
    let before = fresh id in
    elim (Bool-cases (bytes_eq e.id id)) [
      | inl same ↦
          rw (get-put e.id id e entries) (rw same (let b = rw same at before in omega arith))
      | inr other ↦
          rw (get-put e.id id e entries) (rw other (let b = rw other at before in omega arith))
    ]

add_entries-new :
    (e : Entry) (es : List Entry) (entries : List (Bytes × Entry))
    → get e.id entries ≡ none
    → add_entries (e ∷ es) entries ≡ add_entries es (put e.id e entries)
unfolding add_entries
add_entries-new e es entries new = ground arith

add_entries-returns :
    (es : List Entry) (entries : List (Bytes × Entry)) (is : List Bytes)
    → IsFresh entries (ids es ++ is)
    → (more : List (Bytes × Entry)) × (add_entries es entries ≡ ok more) × IsFresh more is
unfolding add_entries times
add_entries-returns [] entries is fresh = (entries, refl, fresh)
add_entries-returns (e ∷ es) entries is fresh = elim (Option-cases (get e.id entries)) [
  | inl new ↦
      let (more, returned, kept) =
        add_entries-returns es (put e.id e entries) is
          (step-IsFresh e (ids es ++ is) entries fresh) in
      (more, add_entries-new e es entries new ∙ returned, kept)
  | inr (old, there_already) ↦
      let twice = fresh e.id in
      let b = rw (there_already, bytes_eq_refl e.id) at twice in absurd (omega arith)
]

-- The ids of the options and positional arguments, command by command.
command_ids : List Command → List Bytes
command_ids [] = []
command_ids (c ∷ cs) = ids (c.options ++ c.positional_arguments) ++ command_ids cs

add_commands-returns :
    (cs : List Command) (entries : List (Bytes × Entry))
    → IsFresh entries (command_ids cs)
    → (more : List (Bytes × Entry)) × (add_commands cs entries ≡ ok more)
unfolding add_commands command_ids
add_commands-returns [] entries fresh = (entries, refl)
add_commands-returns (c ∷ cs) entries fresh =
    let (more, returned, kept) =
      add_entries-returns (c.options ++ c.positional_arguments) entries (command_ids cs) fresh in
    let (last, all_returned) = add_commands-returns cs more kept in (last, rw returned all_returned)

-- Command by command, or first the options and then the positional arguments.
times-regroup :
    (id : Bytes) (cs : List Command)
    → times id (command_ids cs)
      ≡ times id (ids (options_of cs)) + times id (ids (positionals_of cs))
unfolding command_ids options_of positionals_of times
times-regroup id [] = omega arith
times-regroup id (c ∷ cs) =
    rw
      (
        map-append id_of c.options c.positional_arguments,
        map-append id_of c.options (options_of cs),
        map-append id_of c.positional_arguments (positionals_of cs),
      )
      (omega (
        arith,
        times-regroup id cs,
        times-append id (ids c.options ++ ids c.positional_arguments) (command_ids cs),
        times-append id (ids c.options) (ids c.positional_arguments),
        times-append id (ids c.options) (ids (options_of cs)),
        times-append id (ids c.positional_arguments) (ids (positionals_of cs)),
      ))

abbrev item_id : Item → Bytes
item_id i = i.id

item_ids : (es : List Entry) → map item_id (map item_of es) ≡ ids es
item_ids [] = refl
item_ids (e ∷ es) = ap (λ is. e.id ∷ is) (item_ids es)

all-fresh :
    (i : Inventory)
    → has_repeat (map (λ (e : Item). e.id) (entries_of i)) ≡ false
    → (id : Bytes) → 0 + times id (command_ids i.commands) ≤ 1
all-fresh i h id =
    let options = map item_of (options_of i.commands) in
    let positionals = map item_of (positionals_of i.commands) in
    let others = i.config_keys ++ i.support_scripts in
    let first = map-append item_id options (positionals ++ others) in
    let second = map-append item_id positionals others in
    let once = times-le-one id (map item_id (entries_of i)) h in
    let b =
      rw (first, second, item_ids (options_of i.commands), item_ids (positionals_of i.commands)) at
        once in
    omega (
      arith,
      times-regroup id i.commands,
      times-append id (ids (options_of i.commands))
          (ids (positionals_of i.commands) ++ map item_id others),
      times-append id (ids (positionals_of i.commands)) (map item_id others),
    )

-- An inventory whose entry ids are globally unique has its maps.
pub inventory_maps-returns :
    (i : Inventory)
    → has_repeat (map (λ (e : Item). e.id) (entries_of i)) ≡ false
    → (maps : Maps) × (inventory_maps i.commands ≡ ok maps)
      × (maps.commands ≡ dict_of (map (λ (c : Command). (c.name, c)) i.commands))
unfolding inventory_maps get times
inventory_maps-returns i h =
    let (entries, returned) = add_commands-returns i.commands [] (λ id. all-fresh i h id) in
    (
      record {
        commands = dict_of (map (λ c. (c.name, c)) i.commands);
        entries = entries;
        families = dict_of (map (λ c. (c.name, c.parser_policy.policy.family)) i.commands);
      },
      rw returned refl,
      refl,
    )

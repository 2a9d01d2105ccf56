-- ===== src/Blocklist/Allowed.antt =====
-- lib/blocklist.c: what may be scanned after `blocklist_init`.
use zmap_embedded_ip.Base.{
  ℕ, ◌^◌, ◌≤◌, ◌<◌, ◌≡◌, refl, sym, ap, ◌∙◌, Bool, true, false, inl, inr, Option, none, some, List,
  [], ◌∷◌, Bool-cases, Option-cases, ltb, arith,
}
use mathlib.Core.Option.{some-injective}
use zmap_embedded_ip.Constraint.{constraint_set, constraint_lookup_ip, constraint_paint_value}
use zmap_embedded_ip.Constraint.Lookup.{constraint_lookup_ip-set}
use zmap_embedded_ip.Constraint.Valid.{
  IsValid, constraint_init-IsValid, constraint_set-IsValid, constraint_paint_value-IsValid,
  constraint_lookup_ip-paint_value,
}
use zmap_embedded_ip.Constraint.Enumerate.{constraint_lookup_index-lookup_ip}
use zmap_embedded_ip.Blocklist.{
  Blocklist, Entry, Resolver, addr_allowed, addr_disallowed, add_constraint, add_all, prefix_len_of,
  init_from_string, init_from_array, init_from_file, allow_listed, fresh_blocklist, allow_from,
  blocklist_init, blocklist_is_allowed, blocklist_lookup_index, blocklist_count_allowed, zero_entry,
}

add_constraint-constraint :
    (ntohl : ℕ → ℕ) (bl bl' : Blocklist) (addr len v : ℕ)
    → add_constraint ntohl bl addr len v ≡ some bl'
    → bl'.constraint ≡ constraint_set bl.constraint (ntohl addr) len v
unfolding add_constraint
add_constraint-constraint ntohl bl bl' addr len v h = ground arith

add_constraint-IsValid :
    (ntohl : ℕ → ℕ) (bl bl' : Blocklist) (addr len v : ℕ)
    → len ≤ 32
    → IsValid bl.constraint
    → add_constraint ntohl bl addr len v ≡ some bl'
    → IsValid bl'.constraint
add_constraint-IsValid ntohl bl bl' addr len v le valid h =
    rw (add_constraint-constraint ntohl bl bl' addr len v h)
      (constraint_set-IsValid bl.constraint (ntohl addr) len v le valid)

add_all-IsValid :
    (ntohl : ℕ → ℕ) (bl bl' : Blocklist) (addrs : List ℕ) (len v : ℕ)
    → len ≤ 32
    → IsValid bl.constraint
    → add_all ntohl bl addrs len v ≡ some bl'
    → IsValid bl'.constraint
unfolding add_all
add_all-IsValid ntohl bl bl' [] len v le valid h = rw (← some-injective bl bl' h) valid
add_all-IsValid ntohl bl bl' (addr ∷ addrs) len v le valid h =
    elim (Option-cases (add_constraint ntohl bl addr len v)) [
      | inl n ↦ ground arith
      | inr (mid, e) ↦
          add_all-IsValid ntohl mid bl' addrs len v le
            (add_constraint-IsValid ntohl bl mid addr len v le valid e) (ground arith)
    ]

prefix_len_of-le :
    (env : Resolver) (text : Option (List ℕ)) (n : ℕ) → prefix_len_of env text ≡ some n → n ≤ 32
unfolding prefix_len_of
prefix_len_of-le env none n h = ground arith
prefix_len_of-le env (some text) n h = ground arith

init_from_string-IsValid :
    (env : Resolver) (bl bl' : Blocklist) (e : Entry) (v : ℕ) (ok : Bool)
    → IsValid bl.constraint
    → init_from_string env bl e v ≡ some (ok, bl')
    → IsValid bl'.constraint
unfolding init_from_string
init_from_string-IsValid env bl bl' e v ok valid h = elim (Bool-cases (env.is_ip_ipv6 e.host)) [
  | inl six ↦ let same : bl ≡ bl' = ground arith in rw (← same) valid
  | inr four ↦ elim (Option-cases (prefix_len_of env e.len)) [
    | inl n ↦ ground arith
    | inr (len, p) ↦
        let le = prefix_len_of-le env e.len len p in
        elim (Option-cases (env.inet_aton e.host)) [
          | inr (addr, q) ↦ elim (Option-cases (add_constraint env.ntohl bl addr len v)) [
            | inl n ↦ ground arith
            | inr (mid, r) ↦
                let same : mid ≡ bl' = ground arith in
                rw (← same) (add_constraint-IsValid env.ntohl bl mid addr len v le valid r)
          ]
          | inl q ↦ elim (Option-cases (env.getaddrinfo e.host)) [
            | inl n ↦ let same : bl ≡ bl' = ground arith in rw (← same) valid
            | inr (addrs, g) ↦ elim (Option-cases (add_all env.ntohl bl addrs len v)) [
              | inl n ↦ ground arith
              | inr (mid, r) ↦
                  let same : mid ≡ bl' = ground arith in
                  rw (← same) (add_all-IsValid env.ntohl bl mid addrs len v le valid r)
            ]
          ]
        ]
  ]
]

init_from_array-IsValid :
    (env : Resolver) (bl bl' : Blocklist) (entries : List Entry) (v : ℕ) (ignore : Bool)
    → IsValid bl.constraint
    → init_from_array env bl entries v ignore ≡ some bl'
    → IsValid bl'.constraint
unfolding init_from_array
init_from_array-IsValid env bl bl' [] v ignore valid h = rw (← some-injective bl bl' h) valid
init_from_array-IsValid env bl bl' (e ∷ entries) v ignore valid h =
    elim (Option-cases (init_from_string env bl e v)) [
      | inl n ↦ ground arith
      | inr ((ok, mid), r) ↦
          init_from_array-IsValid env mid bl' entries v ignore
            (init_from_string-IsValid env bl mid e v ok valid r) (ground arith)
    ]

init_from_file-IsValid :
    (env : Resolver) (bl bl' : Blocklist) (file : Option (List Entry)) (v : ℕ) (ignore : Bool)
    → IsValid bl.constraint
    → init_from_file env bl file v ignore ≡ some bl'
    → IsValid bl'.constraint
unfolding init_from_file
init_from_file-IsValid env bl bl' none v ignore valid h = rw (← some-injective bl bl' h) valid
init_from_file-IsValid env bl bl' (some entries) v ignore valid h =
    init_from_array-IsValid env bl bl' entries v ignore valid h

allow_listed-IsValid :
    (env : Resolver) (a : Blocklist) (file : Option (List Entry)) (entries : List Entry)
    (ignore : Bool)
    → allow_listed env file entries ignore ≡ some a
    → IsValid a.constraint
unfolding allow_listed fresh_blocklist
allow_listed-IsValid env a file entries ignore h =
    elim (Option-cases
      (init_from_file env (fresh_blocklist addr_disallowed) file addr_allowed ignore)) [
        | inl n ↦ ground arith
        | inr (b, r) ↦
            init_from_array-IsValid env b a entries addr_allowed ignore
              (init_from_file-IsValid env (fresh_blocklist addr_disallowed) b file addr_allowed
                ignore (constraint_init-IsValid addr_disallowed) r)
              (ground arith)
      ]

allow_from-IsValid :
    (env : Resolver) (a : Blocklist) (file : Option (List Entry)) (entries : List Entry)
    (ignore : Bool)
    → allow_from env file entries ignore ≡ some a
    → IsValid a.constraint
unfolding allow_from fresh_blocklist
allow_from-IsValid env a (some lines) entries ignore h =
    allow_listed-IsValid env a (some lines) entries ignore h
allow_from-IsValid env a none [] ignore h =
    rw (← some-injective (fresh_blocklist addr_allowed) a h) (constraint_init-IsValid addr_allowed)
allow_from-IsValid env a none (e ∷ entries) ignore h =
    allow_listed-IsValid env a none (e ∷ entries) ignore h

-- How a run of `blocklist_init` that does not end in `log_fatal` ends.
record Ends (env : Resolver) (ok : Bool) (bl : Blocklist) : Type 0 where
  before : Blocklist
  valid : IsValid before.constraint
  read : Bool
  after : Blocklist
  zeroed : init_from_string env before zero_entry addr_disallowed ≡ some (read, after)
  painted : bl ≡ record after { constraint = constraint_paint_value after.constraint addr_allowed }
  result : ok ≡ ltb 0 (blocklist_count_allowed bl)

blocklist_init-Ends :
    (env : Resolver) (allow_file block_file : Option (List Entry))
    (allow_entries block_entries : List Entry) (ignore ok : Bool) (bl : Blocklist)
    → blocklist_init env allow_file block_file allow_entries block_entries ignore ≡ some (ok, bl)
    → Ends env ok bl
unfolding blocklist_init
blocklist_init-Ends env allow_file block_file allow_entries block_entries ignore ok bl h =
    elim (Option-cases (allow_from env allow_file allow_entries ignore)) [
      | inl n ↦ ground arith
      | inr (a, p) ↦ elim (Option-cases (init_from_file env a block_file addr_disallowed ignore)) [
        | inl n ↦ ground arith
        | inr (b, q) ↦
            elim (Option-cases (init_from_array env b block_entries addr_disallowed ignore)) [
              | inl n ↦ ground arith
              | inr (c, r) ↦
                  elim (Option-cases (init_from_string env c zero_entry addr_disallowed)) [
                    | inl n ↦ ground arith
                    | inr ((read, d), t) ↦ record {
                      before = c;
                      valid =
                          init_from_array-IsValid env b c block_entries addr_disallowed ignore
                            (init_from_file-IsValid env a b block_file addr_disallowed ignore
                              (allow_from-IsValid env a allow_file allow_entries ignore p) q)
                            r;
                      read = read;
                      after = d;
                      zeroed = t;
                      painted = ground arith;
                      result = ground arith;
                    }
                  ]
            ]
      ]
    ]

-- Whatever files and entries it reads, and whatever the resolver answers, `blocklist_init` leaves
-- a valid constraint if it does not end in `log_fatal`.
pub blocklist_init-IsValid :
    (env : Resolver) (allow_file block_file : Option (List Entry))
    (allow_entries block_entries : List Entry) (ignore ok : Bool) (bl : Blocklist)
    → blocklist_init env allow_file block_file allow_entries block_entries ignore ≡ some (ok, bl)
    → IsValid bl.constraint
blocklist_init-IsValid env allow_file block_file allow_entries block_entries ignore ok bl h =
    let e =
      blocklist_init-Ends env allow_file block_file allow_entries block_entries ignore ok bl h in
    rw e.painted (
      constraint_paint_value-IsValid e.after.constraint addr_allowed
        (init_from_string-IsValid env e.before e.after zero_entry addr_disallowed e.read e.valid
          e.zeroed).well)

zeroed-constraint :
    (env : Resolver) (c d : Blocklist) (ok : Bool)
    → env.is_ip_ipv6 zero_entry.host ≡ false
    → env.inet_aton zero_entry.host ≡ some 0
    → env.ntohl 0 ≡ 0
    → init_from_string env c zero_entry addr_disallowed ≡ some (ok, d)
    → d.constraint ≡ constraint_set c.constraint 0 32 0
unfolding init_from_string prefix_len_of
zeroed-constraint env c d ok four read kept h =
    elim (Option-cases (add_constraint env.ntohl c 0 32 addr_disallowed)) [
      | inl n ↦ ground arith
      | inr (mid, r) ↦
          let same : mid ≡ d = ground arith in
          rw (← same) (
            add_constraint-constraint env.ntohl c mid 0 32 addr_disallowed r
            ∙ ap (λ a. constraint_set c.constraint a 32 0) kept)
    ]

-- Where the resolver reads the text "0.0.0.0" as the IPv4 address 0 and `ntohl` keeps 0, the
-- address 0.0.0.0 is not allowed after `blocklist_init`, whatever the lists say.
pub blocklist_init-zero :
    (env : Resolver) (allow_file block_file : Option (List Entry))
    (allow_entries block_entries : List Entry) (ignore ok : Bool) (bl : Blocklist)
    → env.is_ip_ipv6 zero_entry.host ≡ false
    → env.inet_aton zero_entry.host ≡ some 0
    → env.ntohl 0 ≡ 0
    → blocklist_init env allow_file block_file allow_entries block_entries ignore ≡ some (ok, bl)
    → blocklist_is_allowed env.ntohl bl 0 ≡ false
unfolding blocklist_is_allowed
blocklist_init-zero env allow_file block_file allow_entries block_entries ignore ok bl four read
      kept h =
    let e =
      blocklist_init-Ends env allow_file block_file allow_entries block_entries ignore ok bl h in
    let set : constraint_set e.before.constraint 0 32 0 ≡ e.after.constraint =
      sym (zeroed-constraint env e.before e.after e.read four read kept e.zeroed) in
    let value : constraint_lookup_ip e.after.constraint 0 ≡ 0 = rw (← set) (
      constraint_lookup_ip-set e.before.constraint 0 32 0 0 (omega arith) (omega arith)
        (omega arith)) in
    rw (kept, e.painted)
      (rw (constraint_lookup_ip-paint_value e.after.constraint addr_allowed 0 (omega arith), value)
        refl)

-- After `blocklist_init`, where `ntohl` undoes itself: the address that `blocklist_lookup_index`
-- gives for an index below the count of allowed addresses is allowed.
pub blocklist_lookup_index-allowed :
    (env : Resolver) (allow_file block_file : Option (List Entry))
    (allow_entries block_entries : List Entry) (ignore ok : Bool) (bl : Blocklist) (index : ℕ)
    → ((a : ℕ) → a < 2 ^ 32 → env.ntohl (env.ntohl a) ≡ a)
    → blocklist_init env allow_file block_file allow_entries block_entries ignore ≡ some (ok, bl)
    → index < blocklist_count_allowed bl
    → blocklist_is_allowed env.ntohl bl (blocklist_lookup_index env.ntohl bl index).0 ≡ true
unfolding blocklist_is_allowed blocklist_lookup_index blocklist_count_allowed
blocklist_lookup_index-allowed env allow_file block_file allow_entries block_entries ignore ok bl
      index back h lt =
    let valid =
      blocklist_init-IsValid env allow_file block_file allow_entries block_entries ignore ok bl h in
    let found = constraint_lookup_index-lookup_ip bl.constraint addr_allowed valid index lt in
    rw (back _ found.0, found.1) refl

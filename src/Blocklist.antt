-- ===== src/Blocklist.antt =====
-- lib/blocklist.c: the addresses that may be scanned, from lists of prefixes.
-- `ntohl`, `inet_aton` and `getaddrinfo` are parameters, and so are the test for an IPv6 address
-- and the parse of a prefix length by `strtol`. An entry is the text before and after the slash.
-- A file is the list of its entries after comments were cut off and `sscanf` read a word.
-- `none` stands for `log_fatal`.
pub mod Allowed
use zmap_embedded_ip.Base.{
  ℕ, zero, suc, ◌+◌, ◌^◌, Bool, true, false, ◌&&◌, ◌||◌, not, Option, none, some, List, [], ◌∷◌,
  ◌++◌, ltb, leb, ◌==◌, if◌then◌else◌, u32, length,
}
use zmap_embedded_ip.Constraint.{
  Constraint, constraint_init, constraint_set, constraint_lookup_ip, constraint_lookup_index,
  constraint_count_ips, constraint_paint_value,
}

abbrev pub addr_disallowed : ℕ
addr_disallowed = 0

abbrev pub addr_allowed : ℕ
addr_allowed = 1

-- `bl_cidr_node_t`; the address is in network order.
pub record Cidr : Type 0 where
  pub ip_address : ℕ
  pub prefix_len : ℕ

-- The static variables of the file. A linked list with its last node is the list of its nodes.
pub record Blocklist : Type 0 where
  pub constraint : Constraint
  pub blocklisted_cidrs : List Cidr
  pub allowlisted_cidrs : List Cidr

-- An entry: the text before the slash, and what is after it.
pub record Entry : Type 0 where
  pub host : List ℕ
  pub len : Option (List ℕ)

-- What the code calls of the system.
pub record Resolver : Type 0 where
  pub ntohl : ℕ → ℕ
  pub is_ip_ipv6 : List ℕ → Bool
  pub strtol : List ℕ → Option ℕ
  pub inet_aton : List ℕ → Option ℕ
  pub getaddrinfo : List ℕ → Option (List ℕ)

unfoldable pub bl_ll_add : List Cidr → ℕ → ℕ → List Cidr
bl_ll_add l addr p = l ++ record { ip_address = addr; prefix_len = p } ∷ []

unfoldable pub add_constraint : (ℕ → ℕ) → Blocklist → ℕ → ℕ → ℕ → Option Blocklist
unfolding bl_ll_add
add_constraint ntohl bl addr prefix_len value =
    let con = constraint_set bl.constraint (ntohl addr) prefix_len value in
    if value == addr_allowed
    then some (record bl {
      constraint = con;
      allowlisted_cidrs = bl_ll_add bl.allowlisted_cidrs addr prefix_len;
    })
    else if value == addr_disallowed
    then some (record bl {
      constraint = con;
      blocklisted_cidrs = bl_ll_add bl.blocklisted_cidrs addr prefix_len;
    })
    else none

-- The loop over the addresses of a host name.
unfoldable pub add_all : (ℕ → ℕ) → Blocklist → List ℕ → ℕ → ℕ → Option Blocklist
unfolding add_constraint
add_all ntohl bl [] prefix_len value = some bl
add_all ntohl bl (addr ∷ addrs) prefix_len value =
    elim (add_constraint ntohl bl addr prefix_len value) [
      | none ↦ none
      | some bl' ↦ add_all ntohl bl' addrs prefix_len value
    ]

-- The prefix length of an entry; `none` if it is not one.
unfoldable pub prefix_len_of : Resolver → Option (List ℕ) → Option ℕ
prefix_len_of env none = some 32
prefix_len_of env (some text) = elim (env.strtol text) [
  | none ↦ none
  | some n ↦ if ltb 32 n then none else some n
]

-- What `init_from_string` returns besides the state: whether the entry was read.
unfoldable pub init_from_string : Resolver → Blocklist → Entry → ℕ → Option (Bool × Blocklist)
unfolding add_constraint add_all prefix_len_of
init_from_string env bl e value =
    if env.is_ip_ipv6 e.host then some (true, bl) else elim (prefix_len_of env e.len) [
      | none ↦ none
      | some prefix_len ↦ elim (env.inet_aton e.host) [
        | some addr ↦ elim (add_constraint env.ntohl bl addr prefix_len value) [
          | none ↦ none
          | some bl' ↦ some (true, bl')
        ]
        | none ↦ elim (env.getaddrinfo e.host) [
          | none ↦ some (false, bl)
          | some addrs ↦ elim (add_all env.ntohl bl addrs prefix_len value) [
            | none ↦ none
            | some bl' ↦ some (ltb 0 (length addrs), bl')
          ]
        ]
      ]
    ]

-- The loop of `init_from_array`, and of `init_from_file` over the entries of the file.
unfoldable pub init_from_array : Resolver → Blocklist → List Entry → ℕ → Bool → Option Blocklist
unfolding init_from_string
init_from_array env bl [] value ignore_invalid_hosts = some bl
init_from_array env bl (e ∷ entries) value ignore_invalid_hosts =
    elim (init_from_string env bl e value) [
      | none ↦ none
      | some (ok, bl') ↦ elim (ok || ignore_invalid_hosts) [
        | true ↦ init_from_array env bl' entries value ignore_invalid_hosts
        | false ↦ none
      ]
    ]

-- `init_from_file` over a file that may not be given; `none` within is a file that does not open.
unfoldable pub init_from_file :
    Resolver → Blocklist → Option (List Entry) → ℕ → Bool → Option Blocklist
unfolding init_from_array
init_from_file env bl none value ignore_invalid_hosts = some bl
init_from_file env bl (some entries) value ignore_invalid_hosts =
    init_from_array env bl entries value ignore_invalid_hosts

unfoldable pub blocklist_lookup_index : (ℕ → ℕ) → Blocklist → ℕ → ℕ × Blocklist
blocklist_lookup_index ntohl bl index =
    let (found, con) = constraint_lookup_index bl.constraint index addr_allowed in
    (ntohl found, record bl { constraint = con })

unfoldable pub blocklist_is_allowed : (ℕ → ℕ) → Blocklist → ℕ → Bool
blocklist_is_allowed ntohl bl s_addr =
    constraint_lookup_ip bl.constraint (ntohl s_addr) == addr_allowed

unfoldable pub blocklist_count_allowed : Blocklist → ℕ
blocklist_count_allowed bl = constraint_count_ips bl.constraint addr_allowed

unfoldable pub blocklist_count_not_allowed : Blocklist → ℕ
blocklist_count_not_allowed bl = constraint_count_ips bl.constraint addr_disallowed

-- The entry of the last prefix of `blocklist_init`: the text "0.0.0.0".
abbrev pub zero_entry : Entry
zero_entry = record { host = 48 ∷ 46 ∷ 48 ∷ 46 ∷ 48 ∷ 46 ∷ 48 ∷ []; len = none }

unfoldable pub fresh_blocklist : ℕ → Blocklist
fresh_blocklist v = record {
  constraint = constraint_init v;
  blocklisted_cidrs = [];
  allowlisted_cidrs = [];
}

-- `blocklist_init` up to the prefixes of the blocklist, with an allowlist.
unfoldable pub allow_listed : Resolver → Option (List Entry) → List Entry → Bool → Option Blocklist
unfolding init_from_file init_from_array fresh_blocklist
allow_listed env file entries ignore_invalid_hosts =
    elim (init_from_file env (fresh_blocklist addr_disallowed) file addr_allowed
      ignore_invalid_hosts) [
        | none ↦ none
        | some bl ↦ init_from_array env bl entries addr_allowed ignore_invalid_hosts
      ]

-- `blocklist_init` up to the prefixes of the blocklist.
unfoldable pub allow_from : Resolver → Option (List Entry) → List Entry → Bool → Option Blocklist
unfolding allow_listed fresh_blocklist
allow_from env (some lines) entries ignore_invalid_hosts =
    allow_listed env (some lines) entries ignore_invalid_hosts
allow_from env none [] ignore_invalid_hosts = some (fresh_blocklist addr_allowed)
allow_from env none (e ∷ entries) ignore_invalid_hosts =
    allow_listed env none (e ∷ entries) ignore_invalid_hosts

-- The rest of `blocklist_init`. The result says whether an address may be scanned.
unfoldable pub blocklist_init :
    Resolver
    → Option (List Entry)
    → Option (List Entry)
    → List Entry
    → List Entry
    → Bool
    → Option (Bool × Blocklist)
unfolding allow_from init_from_file init_from_array init_from_string blocklist_count_allowed
blocklist_init env allow_file block_file allow_entries block_entries ignore_invalid_hosts =
    elim (allow_from env allow_file allow_entries ignore_invalid_hosts) [
      | none ↦ none
      | some a ↦ elim (init_from_file env a block_file addr_disallowed ignore_invalid_hosts) [
        | none ↦ none
        | some b ↦ elim (init_from_array env b block_entries addr_disallowed ignore_invalid_hosts) [
          | none ↦ none
          | some c ↦ elim (init_from_string env c zero_entry addr_disallowed) [
            | none ↦ none
            | some (ok, d) ↦
                let painted = record d {
                  constraint = constraint_paint_value d.constraint addr_allowed;
                } in
                some (ltb 0 (blocklist_count_allowed painted), painted)
          ]
        ]
      ]
    ]

-- `blocklist_prefix` and `allowlist_prefix`; `inet_addr` is the address that it reads.
unfoldable pub blocklist_prefix : (ℕ → ℕ) → (List ℕ → ℕ) → Blocklist → List ℕ → ℕ → Option Blocklist
unfolding add_constraint
blocklist_prefix ntohl inet_addr bl ip prefix_len =
    add_constraint ntohl bl (inet_addr ip) prefix_len addr_disallowed

unfoldable pub allowlist_prefix : (ℕ → ℕ) → (List ℕ → ℕ) → Blocklist → List ℕ → ℕ → Option Blocklist
unfolding add_constraint
allowlist_prefix ntohl inet_addr bl ip prefix_len =
    add_constraint ntohl bl (inet_addr ip) prefix_len addr_allowed

-- The value of the address: the source names it an index.
unfoldable pub blocklist_ip_to_index : (ℕ → ℕ) → Blocklist → ℕ → ℕ
blocklist_ip_to_index ntohl bl ip = constraint_lookup_ip bl.constraint (ntohl ip)

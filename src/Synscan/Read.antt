-- ===== src/Synscan/Read.antt =====
-- src/probe_modules/module_tcp_synscan.c: the loop of `parse_tcp_opts` ends, and reads no byte
-- behind the header.
use zmap_embedded_ip.Base.{
  ℕ, zero, suc, ◌+◌, ◌*◌, ◌^◌, ◌≤◌, ◌<◌, ◌≡◌, refl, ap, inl, inr, true, ◌||◌, some, Bool-cases,
  Option-cases, ltb, leb, ◌==◌, ltb→lt, leb→lt, ==_iff, if_cong, arith,
}
use zmap_embedded_ip.Packet.Options.{TcpHeader}
use zmap_embedded_ip.Synscan.Parse.{
  TcpOpts, no_opts, read16, read32, read_option, advance, option_step, parse_loop, tcp_opts,
}

-- A round that goes on moves forward.
option_step-forward :
    (byte_at : ℕ → ℕ) (size curr next : ℕ) (opts opts' : TcpOpts)
    → option_step byte_at size curr opts ≡ some (next, opts')
    → curr < next
unfolding option_step advance
option_step-forward byte_at size curr next opts opts' h =
    elim (Option-cases (read_option byte_at (byte_at curr) (byte_at (curr + 1)) (curr + 2) opts)) [
      | inl e ↦ ground (arith, h, e)
      | inr (o, e) ↦ ground (arith, h, e)
    ]

-- Two memories hold the same bytes below `size`.
abbrev pub Agree : (ℕ → ℕ) → (ℕ → ℕ) → ℕ → Type 0
Agree mem mem' size = (i : ℕ) → i < size → mem i ≡ mem' i

read16-Agree :
    (mem mem' : ℕ → ℕ) (size i : ℕ)
    → Agree mem mem' size
    → i + 2 ≤ size
    → read16 mem i ≡ read16 mem' i
read16-Agree mem mem' size i same fits = rw (same i (omega arith), same (i + 1) (omega arith)) refl

read32-Agree :
    (mem mem' : ℕ → ℕ) (size i : ℕ)
    → Agree mem mem' size
    → i + 4 ≤ size
    → read32 mem i ≡ read32 mem' i
read32-Agree mem mem' size i same fits =
    rw
      (
        same i (omega arith),
        same (i + 1) (omega arith),
        same (i + 2) (omega arith),
        same (i + 3) (omega arith),
      )
      refl

read_option-Agree :
    (mem mem' : ℕ → ℕ) (size kind len val : ℕ) (opts : TcpOpts)
    → Agree mem mem' size
    → val + len ≤ size + 2
    → read_option mem kind len val opts ≡ read_option mem' kind len val opts
unfolding read_option
read_option-Agree mem mem' size kind len val opts same fits =
    let length_is : (n : ℕ) → (len == n) ≡ true → len ≡ n = λ n e. (==_iff len n).0 e in
    if_cong (kind == 2)
      (λ _.
        if_cong (len == 4)
          (λ e.
            ap (λ v. some (record opts { mss = some v }))
              (read16-Agree mem mem' size val same (omega (arith, length_is 4 e))))
          (λ _. refl))
      (λ _.
        if_cong (kind == 3)
          (λ _.
            if_cong (len == 3)
              (λ e.
                ap (λ v. some (record opts { wscale = some (2 ^ v) }))
                  (same val (omega (arith, length_is 3 e))))
              (λ _. refl))
          (λ _.
            if_cong (kind == 4) (λ _. refl)
              (λ _.
                if_cong (kind == 8)
                  (λ _.
                    if_cong (len == 10)
                      (λ e.
                        rw
                          (
                            read32-Agree mem mem' size val same (omega (arith, length_is 10 e)),
                            read32-Agree mem mem' size (val + 4) same
                                (omega (arith, length_is 10 e)),
                          )
                          refl)
                      (λ _. refl))
                  (λ _. refl))))

option_step-Agree :
    (mem mem' : ℕ → ℕ) (size curr : ℕ) (opts : TcpOpts)
    → Agree mem mem' size
    → curr < size
    → option_step mem size curr opts ≡ option_step mem' size curr opts
unfolding option_step
option_step-Agree mem mem' size curr opts same inside =
    let kinds = same curr inside in
    rw kinds (
      if_cong (mem' curr == 0 || mem' curr == 1) (λ _. refl)
        (λ _.
          if_cong (leb size (curr + 1)) (λ _. refl)
            (λ more.
              let lens = same (curr + 1) (leb→lt _ _ more) in
              rw lens (
                if_cong (leb (mem' (curr + 1)) 1 || ltb size (curr + mem' (curr + 1))) (λ _. refl)
                  (λ room.
                    let fits : curr + mem' (curr + 1) ≤ size = ground (arith, room) in
                    ap (advance (curr + mem' (curr + 1))) (
                      read_option-Agree mem mem' size (mem' curr) (mem' (curr + 1)) (curr + 2) opts
                        same (omega arith)))))))

parse_loop-Agree :
    (fuel : ℕ) (mem mem' : ℕ → ℕ) (size curr : ℕ) (opts : TcpOpts)
    → Agree mem mem' size
    → parse_loop fuel mem size curr opts ≡ parse_loop fuel mem' size curr opts
unfolding parse_loop
parse_loop-Agree zero mem mem' size curr opts same = refl
parse_loop-Agree (suc fuel) mem mem' size curr opts same = elim (Bool-cases (ltb curr size)) [
  | inr past ↦ rw (past, parse_loop) refl
  | inl inside ↦
      let step = option_step-Agree mem mem' size curr opts same (ltb→lt _ _ inside) in
      elim (Option-cases (option_step mem' size curr opts)) [
        | inl e ↦ rw (inside, parse_loop, step, e) refl
        | inr ((next, opts'), e) ↦
            rw (inside, parse_loop, step, e) (parse_loop-Agree fuel mem mem' size next opts' same)
      ]
]

parse_loop-ends :
    (fuel : ℕ) (mem : ℕ → ℕ) (size curr : ℕ) (opts : TcpOpts)
    → 0 < fuel
    → size < curr + fuel
    → (found : TcpOpts) × (parse_loop fuel mem size curr opts ≡ some found)
unfolding parse_loop
parse_loop-ends zero mem size curr opts one h = absurd (omega arith)
parse_loop-ends (suc fuel) mem size curr opts one h = elim (Bool-cases (ltb curr size)) [
  | inr past ↦ (opts, rw (past, parse_loop) refl)
  | inl inside ↦ elim (Option-cases (option_step mem size curr opts)) [
    | inl e ↦ (opts, rw (inside, parse_loop, e) refl)
    | inr ((next, opts'), e) ↦
        let forward = option_step-forward mem size curr next opts opts' e in
        let (found, run) =
          parse_loop-ends fuel mem size next opts' (omega (arith, ltb→lt _ _ inside))
            (omega arith) in
        (found, rw (inside, parse_loop, e) run)
  ]
]

-- For any header length of four bits and any bytes, the loop over the options ends.
pub tcp_opts-ends :
    (tcp : TcpHeader) → tcp.th_off < 16 → (found : TcpOpts) × (tcp_opts tcp ≡ some found)
unfolding tcp_opts
tcp_opts-ends tcp h =
    parse_loop-ends 41 tcp.byte_at (tcp.th_off * 4) 20 no_opts (omega arith) (omega arith)

-- What the loop finds depends only on the bytes that the header's length covers: it reads none
-- behind them.
pub tcp_opts-Agree :
    (tcp tcp' : TcpHeader)
    → tcp.th_off ≡ tcp'.th_off
    → Agree tcp.byte_at tcp'.byte_at (tcp.th_off * 4)
    → tcp_opts tcp ≡ tcp_opts tcp'
unfolding tcp_opts
tcp_opts-Agree tcp tcp' len same =
    rw (← len) (parse_loop-Agree 41 tcp.byte_at tcp'.byte_at (tcp.th_off * 4) 20 no_opts same)

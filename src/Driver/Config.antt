-- ===== src/Driver/Config.antt =====
-- The configuration that src/opends_aisio.c reads from the environment: `env_int` and
-- `read_env_config`.
--
-- `getenv`, `strtol` and `strtoull` are the C library's. A text is the list of its bytes; `strtol`
-- returns its value and the rest that it leaves, from `end` on.
use opends_fork.Prelude.{
  ℕ, ◌≤◌, ◌≡◌, Bool, true, false, not, ◌&&◌, ◌||◌, Option, none, some, List, [], ◌∷◌, leb, ◌==◌,
  if◌then◌else◌, length, arith, Bool-cases, Option-cases, inl, inr,
}
use opends_fork.Prelude.Int.{ℤ, pos, negsuc, ℤ-cases}

abbrev pub Text : Type 0
Text = List ℕ

-- The variables, ENV_IO_THREADS and so on.
pub data Variable : Type 0 where
  io_threads queue_depth idle_spin cpu_mask assume_aligned_only homi_dev homi_socket : Variable

abbrev pub max_io_threads : ℕ
max_io_threads = 15

abbrev pub max_queue_depth : ℕ
max_queue_depth = 4096

abbrev pub max_idle_spin_us : ℕ
max_idle_spin_us = 1000000

-- "busy"
abbrev pub busy_text : Text
busy_text = 98 ∷ 117 ∷ 115 ∷ 121 ∷ []

abbrev pub text_eq : Text → Text → Bool
text_eq [] [] = true
text_eq [] (y ∷ ys) = false
text_eq (x ∷ xs) [] = false
text_eq (x ∷ xs) (y ∷ ys) = x == y && text_eq xs ys

abbrev pub is_empty : Text → Bool
is_empty [] = true
is_empty (c ∷ cs) = false

-- `aligned[0] && aligned[0] != '0'`
abbrev pub is_on : Text → Bool
is_on [] = false
is_on (c ∷ cs) = not (c == 48)

-- `n < lo || n > hi` does not hold.
abbrev pub in_range : ℕ → ℕ → ℤ → Bool
in_range lo hi (pos n) = leb lo n && leb n hi
in_range lo hi (negsuc n) = false

abbrev pub nat_of : ℤ → ℕ
nat_of (pos n) = n
nat_of (negsuc n) = 0

-- The vendor operations that the table provides.
pub record Vendor : Type 0 where
  pub launch_host_func : Bool
  pub stream_write_value32 : Bool
  pub stream_wait_value32_geq : Bool

pub record Config : Type 0 where
  pub n_io_threads : ℕ
  pub queue_depth : ℕ
  pub busy_spin : Bool
  pub idle_spin_us : ℕ
  pub cpu_mask : ℕ
  pub assume_aligned_only : Bool

module _ (strtol : Text → ℤ × Text) (strtoull : Text → ℕ) (getenv : Variable → Option Text) where
  -- `env_int` for a value with these defaults; `none` is -EINVAL.
  unfoldable pub env_int : Variable → ℕ → ℕ → ℕ → Option ℕ
  env_int name def lo hi = elim (getenv name) [
    | none ↦ some def
    | some v ↦
        if is_empty v
        then some def
        else if length (strtol v).1 == length v || not (is_empty (strtol v).1)
        then none
        else if in_range lo hi (strtol v).0
        then some (nat_of (strtol v).0)
        else none
  ]

  abbrev pub is_busy : Bool
  is_busy = elim (getenv idle_spin) [ none ↦ false | some v ↦ text_eq v busy_text ]

  abbrev pub spin_of : Option ℕ
  spin_of = if is_busy then some 200 else env_int idle_spin 200 0 max_idle_spin_us

  abbrev pub mask_of : ℕ
  mask_of = elim (getenv cpu_mask) [ none ↦ 0 | some v ↦ if is_empty v then 0 else strtoull v ]

  abbrev pub aligned_of : Bool
  aligned_of = elim (getenv assume_aligned_only) [ none ↦ false | some v ↦ is_on v ]

  unfoldable pub read_env_config : Vendor → Option Config
  unfolding env_int
  read_env_config vendor = elim (env_int io_threads 2 1 max_io_threads) [
    | none ↦ none
    | some n ↦ elim (env_int queue_depth 8 1 max_queue_depth) [
      | none ↦ none
      | some depth ↦ elim spin_of [
        | none ↦ none
        | some spin ↦
            if aligned_of && not vendor.launch_host_func
            then none
            else if not aligned_of
                && (not vendor.stream_write_value32 || not vendor.stream_wait_value32_geq)
            then none
            else some (record {
              n_io_threads = n;
              queue_depth = depth;
              busy_spin = is_busy;
              idle_spin_us = spin;
              cpu_mask = mask_of;
              assume_aligned_only = aligned_of;
            })
      ]
    ]
  ]

  -- Every configuration that is accepted has its numbers in range, and the vendor provides the gate
  -- mechanism that the configuration selects.
  pub record IsConfig (vendor : Vendor) (c : Config) : Type 0 where
    pub threads : (1 ≤ c.n_io_threads) × (c.n_io_threads ≤ 15)
    pub depth : (1 ≤ c.queue_depth) × (c.queue_depth ≤ 4096)
    pub spin : c.idle_spin_us ≤ 1000000
    pub gate :
        (if c.assume_aligned_only
          then vendor.launch_host_func
          else vendor.stream_write_value32 && vendor.stream_wait_value32_geq)
        ≡ true

  env_int_bounds :
      (name : Variable) (def lo hi n : ℕ)
      → lo ≤ def
      → def ≤ hi
      → env_int name def lo hi ≡ some n
      → (lo ≤ n) × (n ≤ hi)
  unfolding env_int
  env_int_bounds name def lo hi n h h' e = elim (Option-cases (getenv name)) [
    | inl unset ↦ ground arith
    | inr (v, set) ↦ elim (ℤ-cases (strtol v).0) [
      | inl (m, read) ↦ ground arith
      | inr (m, below) ↦ ground arith
    ]
  ]

  spin_bounds : (n : ℕ) → spin_of ≡ some n → n ≤ 1000000
  spin_bounds n e = elim (Bool-cases is_busy) [
    | inl busy ↦ ground arith
    | inr timed ↦
        (let (lo, hi) =
            env_int_bounds idle_spin 200 0 max_idle_spin_us n (omega arith) (omega arith)
              (ground arith) in
          hi)
  ]

  -- Whatever the environment holds, a configuration that is accepted has its numbers in range: 1 to 15
  -- threads, queues of 1 to 4096 commands, at most a second of spinning. And the vendor provides the
  -- gate mechanism that the configuration selects.
  pub read_env_config-IsConfig :
      (vendor : Vendor) {c : Config} → read_env_config vendor ≡ some c → IsConfig vendor c
  unfolding read_env_config
  read_env_config-IsConfig vendor {c} run =
      elim (Option-cases (env_int io_threads 2 1 max_io_threads)) [
        | inl bad ↦ ground arith
        | inr (n, e) ↦ elim (Option-cases (env_int queue_depth 8 1 max_queue_depth)) [
          | inl bad ↦ ground arith
          | inr (depth, e') ↦ elim (Option-cases spin_of) [
            | inl bad ↦ ground arith
            | inr (spin, e'') ↦
                (let b =
                    env_int_bounds io_threads 2 1 max_io_threads n (omega arith) (omega arith) e in
                  let b' =
                    env_int_bounds queue_depth 8 1 max_queue_depth depth (omega arith) (omega arith)
                      e' in
                  let b'' = spin_bounds spin e'' in
                  record {
                    threads = ground arith;
                    depth = ground arith;
                    spin = ground arith;
                    gate = ground arith;
                  })
          ]
        ]
      ]

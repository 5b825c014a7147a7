-- ===== src/Options/Numbers.antt =====
-- The options of the library that are numbers.
use quicer.Prelude.{
  ℕ, ◌^◌, ◌<◌, ◌≡◌, ◌⊎◌, ◌≢◌, inl, inr, ap, Option, none, some, [], ◌∷◌, arith, Bool-cases, ltb,
  leb,
}
use quicer.Nif.{Nif, Reply}
use quicer.Config.Read.{uint16_max}
use quicer.Config.Settings.{Settings, create_settings}
use quicer.Options.{
  Param, global_retry_memory_percent, global_load_balacing_mode, global_settings, Buffer, Host,
  write, set_param, done,
}
use quicer.Options.Levels.{write_settings}
use quicer.Options.Global.{set_global_opt, write_percent, write_lbmode}

module _ {nif : Nif} (host : Host nif) where
  -- A number for one of the two options of the library that have one, within the option's bound.
  abbrev pub InBounds : Param → ℕ → Type 0
  InBounds p n =
      ((p ≡ global_retry_memory_percent) × (n < 2 ^ 16))
      ⊎ ((p ≡ global_load_balacing_mode) × (n < host.load_balancing_count))

  write_percent-InBounds :
      (g : ℕ) (p : Param) (size n : ℕ) (r : Reply) (handle : ℕ) (o : Option ℕ)
      → write_percent host handle o ≡ done (set_param g p size (Buffer.number n) ∷ []) r
      → InBounds p n × (o ≡ some n)
  unfolding write_percent write
  write_percent-InBounds g p size n r handle none e = absurd cc
  write_percent-InBounds g p size n r handle (some k) e = elim (Bool-cases (ltb uint16_max k)) [
    | inl large ↦ absurd (ground (arith))
    | inr small ↦
        let same : k ≡ n = ground (arith) in
        let named : p ≡ global_retry_memory_percent = ground (arith) in
        (inl (named, ground (arith)), ap some same)
  ]

  write_lbmode-InBounds :
      (g : ℕ) (p : Param) (size n : ℕ) (r : Reply) (handle : ℕ) (o : Option ℕ)
      → write_lbmode host handle o ≡ done (set_param g p size (Buffer.number n) ∷ []) r
      → InBounds p n × (o ≡ some n)
  unfolding write_lbmode write
  write_lbmode-InBounds g p size n r handle none e = absurd cc
  write_lbmode-InBounds g p size n r handle (some k) e =
      elim (Bool-cases (leb host.load_balancing_count k)) [
        | inl large ↦ absurd (ground (arith))
        | inr small ↦
            let same : k ≡ n = ground (arith) in
            let named : p ≡ global_load_balacing_mode = ground (arith) in
            (inr (named, ground (arith)), ap some same)
      ]

  no_number :
      (g : ℕ) (p q : Param) (size n : ℕ) (r : Reply) (handle : ℕ) (o : Option Settings)
      → write_settings host handle q o ≢ done (set_param g p size (Buffer.number n) ∷ []) r
  unfolding write_settings write
  no_number g p q size n r handle none e = cc
  no_number g p q size n r handle (some s) e = cc

  -- A number that set_global_opt hands to MsQuic is the value that was given, for the retry memory below
  -- 2^16, and for the load balancing mode below the number of modes.
  pub set_global_opt-InBounds :
      (handle : ℕ) (optname optval : Nif.Term nif) (g : ℕ) (p : Param) (size n : ℕ) (r : Reply)
      → set_global_opt host handle optname optval
        ≡ done (set_param g p size (Buffer.number n) ∷ []) r
      → InBounds p n × (nif.get_uint optval ≡ some n)
  unfolding set_global_opt
  set_global_opt-InBounds handle optname optval g p size n r e = ground (
    arith,
    write_percent-InBounds g p size n r handle (nif.get_uint optval),
    write_lbmode-InBounds g p size n r handle (nif.get_uint optval),
    no_number g p global_settings size n r handle (create_settings nif host.store optval),
  )

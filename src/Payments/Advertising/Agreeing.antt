-- ===== src/Payments/Advertising/Agreeing.antt =====
-- That the two handlers which advertise an address agree, and what is behind an address.
use signal_bot_tee.Common.{
  ℕ, String, ◌≡◌, refl, Bool, true, false, Option, none, some, List, [], ◌∷◌, ◌++◌, Result, ok, err,
  if◌then◌else◌, inl, inr, Bool-cases, append_assoc, append-nil,
}
use signal_bot_tee.Credits.Types.{Chain, base, near, solana, PaymentError}
use signal_bot_tee.Payments.Facilitator.{Facilitator, ChainConfig, PerChain, of_chain}
use signal_bot_tee.Payments.Deposits.{AppState, is_enabled}
use signal_bot_tee.Payments.Advertising.{
  ChainInfo, DepositAddressResponse, AddressError, chain_of, enabled_chains, chain_if, address_for,
  get_deposit_address, info_of, infos_of, get_pricing, initialize, initialized_by,
  start_facilitators,
}

-- A facilitator is there only if its chain is configured and enabled.
abbrev pub IsBacked : {W : Type 0} → Option ChainConfig → Option (Facilitator W) → Type 0
IsBacked config none = Unit {0}
IsBacked config (some f) = is_enabled config ≡ true

abbrev pub IsStarted : {W : Type 0} → AppState W → Type 0
IsStarted a = (c : Chain) → IsBacked (of_chain c a.configs) (of_chain c a.facilitators)

-- The name by which a chain is asked for
abbrev pub name_of : Chain → String
name_of base = "base"
name_of near = "near"
name_of solana = "solana"

abbrev pub same_chain : Chain → Chain → Bool
same_chain base base = true
same_chain near near = true
same_chain solana solana = true
same_chain _ _ = false

-- The addresses that a list advertises for a chain
abbrev pub listed : Chain → List ChainInfo → List String
listed c [] = []
listed c (i ∷ is) = if same_chain i.chain c then i.deposit_address ∷ listed c is else listed c is

-- The address of an answer to get_deposit_address, if it is one
abbrev pub answered : Result AddressError DepositAddressResponse → List String
answered (err e) = []
answered (ok r) = r.address ∷ []

initialized_by-IsBacked :
    {W : Type 0} (config : ChainConfig)
    → config.enabled ≡ true
    → (r : Result PaymentError (Facilitator W) × W) → IsBacked (some config) (initialized_by r).0
initialized_by-IsBacked config on (ok f, w) = on
initialized_by-IsBacked config on (err e, w) = tt

enabled-IsBacked :
    {W : Type 0} (new : ChainConfig → W → Result PaymentError (Facilitator W) × W)
    (config : ChainConfig) (w : W) (b : Bool)
    → config.enabled ≡ b
    → IsBacked (some config) (if b then initialized_by (new config w) else (none, w)).0
enabled-IsBacked new config w true on = initialized_by-IsBacked config on (new config w)
enabled-IsBacked new config w false off = tt

initialize-IsBacked :
    {W : Type 0} (new : ChainConfig → W → Result PaymentError (Facilitator W) × W)
    (config : Option ChainConfig) (w : W)
    → IsBacked config (initialize new config w).0
unfolding initialize
initialize-IsBacked new none w = tt
initialize-IsBacked new (some config) w = enabled-IsBacked new config w config.enabled refl

-- Every facilitator of a server that has started is for a chain that is configured and enabled.
pub start_facilitators-IsBacked :
    {W : Type 0} (new : PerChain (ChainConfig → W → Result PaymentError (Facilitator W) × W))
    (configs : PerChain (Option ChainConfig)) (w : W) (c : Chain)
    → IsBacked (of_chain c configs) (of_chain c (start_facilitators new configs w).0)
unfolding start_facilitators
start_facilitators-IsBacked new configs w base = initialize-IsBacked new.on_base configs.on_base w
start_facilitators-IsBacked new configs w near =
    let (on_base, w1) = initialize new.on_base configs.on_base w in
    initialize-IsBacked new.on_near configs.on_near w1
start_facilitators-IsBacked new configs w solana =
    let (on_base, w1) = initialize new.on_base configs.on_base w in
    let (on_near, w2) = initialize new.on_near configs.on_near w1 in
    initialize-IsBacked new.on_solana configs.on_solana w2

listed-++ : (c : Chain) (is js : List ChainInfo) → listed c (is ++ js) ≡ listed c is ++ listed c js
listed-++ c [] js = refl
listed-++ c (i ∷ is) js = elim (Bool-cases (same_chain i.chain c)) [
  | inl same ↦ simp (same, listed-++ c is js)
  | inr other ↦ simp (other, listed-++ c is js)
]

module _ {W : Type 0} (a : AppState W) (format_usdc : ℕ → String) where
  infos_of-++ : (cs ds : List Chain) → infos_of a (cs ++ ds) ≡ infos_of a cs ++ infos_of a ds
  unfolding infos_of
  infos_of-++ [] ds = refl
  infos_of-++ (c ∷ cs) ds = simp (infos_of-++ cs ds, append_assoc)

  -- What the list of one chain, if it is enabled, advertises for the chain c
  abbrev part : Chain → Chain → List String
  part c chain = listed c (infos_of a (chain_if (is_enabled (of_chain chain a.configs)) chain))

  listed-enabled_chains :
      (c : Chain)
      → listed c (infos_of a (enabled_chains a.configs))
        ≡ part c base ++ (part c near ++ part c solana)
  unfolding enabled_chains
  listed-enabled_chains c = simp (infos_of-++, listed-++)

  listed_other :
      (c chain : Chain)
      → same_chain chain c ≡ false
      → (b : Bool) (f : Option (Facilitator W))
      → listed c (elim b [ true ↦ info_of a chain f ++ [] | false ↦ [] ]) ≡ []
  listed_other c chain other false f = refl
  listed_other c chain other true none = refl
  listed_other c chain other true (some f) = rw other refl

  part_other : (c chain : Chain) → same_chain chain c ≡ false → part c chain ≡ []
  unfolding infos_of
  part_other c chain other = elim (Bool-cases (is_enabled (of_chain chain a.configs))) [
    | inl on ↦ simp (on) (listed_other c chain other true (of_chain chain a.facilitators))
    | inr off ↦ rw off refl
  ]

  listed_own :
      (c : Chain) (config : Option ChainConfig) (f : Option (Facilitator W))
      → IsBacked config f
      → (b : Bool) → is_enabled config ≡ b
      → listed c (elim b [ true ↦ info_of a c f ++ [] | false ↦ [] ])
        ≡ answered (address_for a c config f)
  listed_own c none none backed true on = refl
  listed_own c none none backed false off = refl
  listed_own c (some config) none backed true on = refl
  listed_own c (some config) none backed false off = refl
  listed_own c none (some f) backed b h = absurd (cc)
  listed_own c (some config) (some f) backed false off = absurd (cc)
  listed_own base (some config) (some f) backed true on = refl
  listed_own near (some config) (some f) backed true on = refl
  listed_own solana (some config) (some f) backed true on = refl

  part_own :
      IsStarted a
      → (c : Chain)
      → part c c ≡ answered (address_for a c (of_chain c a.configs) (of_chain c a.facilitators))
  unfolding infos_of
  part_own started c =
      let own = listed_own c (of_chain c a.configs) (of_chain c a.facilitators) (started c) in
      elim (Bool-cases (is_enabled (of_chain c a.configs))) [
        | inl on ↦ simp (on) (own true on)
        | inr off ↦ simp (off) (own false off)
      ]

  chain_of-name_of : (c : Chain) → chain_of (name_of c) ≡ some c
  unfolding chain_of
  chain_of-name_of base = refl
  chain_of-name_of near = refl
  chain_of-name_of solana = refl

  get_deposit_address-address_for :
      (to_lowercase : String → String) (name : String) (c : Chain)
      → to_lowercase name ≡ name_of c
      → get_deposit_address a to_lowercase name
        ≡ address_for a c (of_chain c a.configs) (of_chain c a.facilitators)
  unfolding get_deposit_address
  get_deposit_address-address_for to_lowercase name c spelled =
      rw (get_deposit_address, spelled, chain_of-name_of c) refl

  listed-address_for :
      IsStarted a
      → (c : Chain)
      → listed c (infos_of a (enabled_chains a.configs))
        ≡ answered (address_for a c (of_chain c a.configs) (of_chain c a.facilitators))
  listed-address_for started base =
      rw
        (
          listed-enabled_chains base,
          part_other base near refl,
          part_other base solana refl,
          part_own started base,
        )
        (append-nil _)
  listed-address_for started near =
      rw
        (
          listed-enabled_chains near,
          part_other near base refl,
          part_other near solana refl,
          part_own started near,
        )
        (append-nil _)
  listed-address_for started solana =
      rw
        (
          listed-enabled_chains solana,
          part_other solana near refl,
          part_other solana base refl,
          part_own started solana,
        )
        refl

  -- Of a server with the facilitators of its start, the chains that get_pricing lists and the
  -- answers of get_deposit_address agree: for each chain, by its name in any spelling that is
  -- lowered to it, the one lists exactly the address that the other answers with, or both give none.
  pub get_pricing-get_deposit_address :
      (new : PerChain (ChainConfig → W → Result PaymentError (Facilitator W) × W)) (w : W)
      → a.facilitators ≡ (start_facilitators new a.configs w).0
      → (to_lowercase : String → String) (name : String) (c : Chain) → to_lowercase name ≡ name_of c
      → listed c (get_pricing a format_usdc).supported_chains
        ≡ answered (get_deposit_address a to_lowercase name)
  unfolding get_pricing
  get_pricing-get_deposit_address new w made to_lowercase name c spelled =
      let started : IsStarted a =
        λ chain. rw made (start_facilitators-IsBacked new a.configs w chain) in
      rw (get_deposit_address-address_for to_lowercase name c spelled)
        (listed-address_for started c)

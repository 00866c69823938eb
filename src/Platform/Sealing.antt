-- ===== src/Platform/Sealing.antt =====
-- A sealed file: twelve bytes of a nonce, and the data encrypted under a key.
use signal_bot_tee.Common.{
  ◌≡◌, true, false, some, ◌++◌, arith, length, length-append, take, drop, take-append, drop-append,
  ltb,
}
use signal_bot_tee.Platform.{Bytes, TeeStorage, IsFaithful}

module _ {W D : Type 0} (p : TeeStorage W D) where
  -- What a successful write has put on the disk
  pub record IsSealed (key : Bytes) (d : D) (w : W) : Type 0 where
    pub nonce : Bytes
    pub plain : Bytes
    pub cipher : Bytes
    pub nonce_fits : length nonce ≡ 12
    pub serialized : p.serialize d ≡ some plain
    pub encrypted : p.encrypt key nonce plain ≡ some cipher
    pub there : p.exists w ≡ true
    pub contents : (p.read_file w).0 ≡ some (nonce ++ cipher)

  module _ (laws : IsFaithful p) {key : Bytes} {d : D} {w : W} (sealed : IsSealed key d w) where
    -- How a sealed file is taken apart again
    pub sealed_opens :
        (ltb (length (sealed.nonce ++ sealed.cipher)) 12 ≡ false)
        × (take 12 (sealed.nonce ++ sealed.cipher) ≡ sealed.nonce)
        × (drop 12 (sealed.nonce ++ sealed.cipher) ≡ sealed.cipher)
        × (p.decrypt key sealed.nonce sealed.cipher ≡ some sealed.plain)
    sealed_opens = (
      ground (arith, length-append sealed.nonce sealed.cipher, sealed.nonce_fits),
      take-append 12 sealed.nonce sealed.cipher sealed.nonce_fits,
      drop-append 12 sealed.nonce sealed.cipher sealed.nonce_fits,
      laws.decrypts key sealed.nonce sealed.plain sealed.encrypted,
    )

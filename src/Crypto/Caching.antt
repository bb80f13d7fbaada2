-- ===== src/Crypto/Caching.antt =====
-- The cache of `unwrap` in envelope-crypto.service.ts.
use messageries.Base.{
  All, Bool-cases, Option, Option-cases, [], ap, arith, find, find-All, find_sound, if◌then◌else◌,
  inl, inr, length, ltb, refl, some, subst, suc, sym, ℕ, ◌+◌, ◌∷◌, ◌≡◌, ◌≤◌,
}
use messageries.Base.Text.{Text, text_eq_sound}
use messageries.Crypto.{Encrypted}
use messageries.Crypto.Envelope.{
  Cache, CacheEntry, KmsProvider, cache_set, decrypt, decrypt_uncached, has_dek_id, open_body,
  unwrap, unwrap_missed, unwrap_pieces,
}
use messageries.Crypto.Node.{Bytes, NodeCrypto, split_double_colon}

-- Every entry holds what the key service gives for its identifier.
abbrev pub IsFaithful : NodeCrypto → KmsProvider → Cache → Type 0
IsFaithful node kms = All (λ e. unwrap_pieces node kms (split_double_colon e.dek_id) ≡ some e.dek)

length-cache_set : (e : CacheEntry) (c : Cache) → length (cache_set e c) ≤ suc (length c)
unfolding cache_set
length-cache_set e [] = omega arith
length-cache_set e (x ∷ c) = ground (arith, length-cache_set e c)

cache_set-All :
    (P : CacheEntry → Type 0) (e : CacheEntry) (c : Cache) → P e → All P c → All P (cache_set e c)
unfolding cache_set
cache_set-All P e [] p h = (p, tt)
cache_set-All P e (x ∷ c) p h = ground (arith, cache_set-All P e c p h.1)

module _ (node : NodeCrypto) (kms : KmsProvider) where
  abbrev plain_text : Text → Option Bytes
  plain_text id = unwrap_pieces node kms (split_double_colon id)

  -- What a lookup gives and keeps.
  abbrev IsSound : Text → Option Bytes × Cache → Type 0
  IsSound id r = (r.0 ≡ plain_text id) × IsFaithful node kms r.1 × (length r.1 ≤ 5001)

  unwrap_missed-IsSound :
      (now : ℕ) (id : Text) (cache : Cache)
      → IsFaithful node kms cache
      → length cache ≤ 5001
      → IsSound id (unwrap_missed node kms now id cache)
  unfolding unwrap_missed
  unwrap_missed-IsSound now id cache faithful bound = elim (Option-cases (plain_text id)) [
    | inl bad ↦ rw (bad, unwrap_missed) (refl, faithful, bound)
    | inr (dek, good) ↦
        let e : CacheEntry = record { dek_id = id; dek = dek; expires = now + 60000 } in
        let room : Cache = if ltb 5000 (length cache) then [] else cache in
        let kept : IsFaithful node kms room = ground (arith, faithful) in
        let small : length room ≤ 5000 = ground arith in
        rw (good, unwrap_missed)
          (
            refl,
            cache_set-All (λ e. plain_text e.dek_id ≡ some e.dek) e room good kept,
            omega (arith, length-cache_set e room),
          )
  ]

  unwrap-IsSound :
      (now : ℕ) (id : Text) (cache : Cache)
      → IsFaithful node kms cache
      → length cache ≤ 5001
      → IsSound id (unwrap node kms now id cache)
  unfolding unwrap
  unwrap-IsSound now id cache faithful bound =
      let missed = unwrap_missed-IsSound now id cache faithful bound in
      elim (Option-cases (find (has_dek_id id) cache)) [
        | inl miss ↦ rw (miss, unwrap) missed
        | inr (e, hit) ↦
            let held =
              find-All (λ e. plain_text e.dek_id ≡ some e.dek) (has_dek_id id) cache e faithful
                hit in
            let same = text_eq_sound e.dek_id id (find_sound (has_dek_id id) cache e hit) in
            elim (Bool-cases (ltb now e.expires)) [
              | inl live ↦
                  rw (hit, live, unwrap)
                    (sym (subst (λ i. plain_text i ≡ some e.dek) same held), faithful, bound)
              | inr old ↦ rw (hit, old, unwrap) missed
            ]
      ]

  -- Decryption over a faithful cache of at most 5001 entries gives what it gives without one, at any
  -- time; and the cache stays faithful and within 5001 entries.
  pub decrypt-decrypt_uncached :
      (now : ℕ) (e : Encrypted) (cache : Cache)
      → IsFaithful node kms cache
      → length cache ≤ 5001
      → let (text, cache') = decrypt node kms now e cache in
        (text ≡ decrypt_uncached node kms e) × IsFaithful node kms cache' × (length cache' ≤ 5001)
  unfolding decrypt decrypt_uncached
  decrypt-decrypt_uncached now e cache faithful bound =
      let (same, kept, small) = unwrap-IsSound now e.dek_id cache faithful bound in
      (ap (λ x. open_body node kms e x) same, kept, small)

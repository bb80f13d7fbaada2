-- ===== src/Crypto/Unwrapping.antt =====
-- `generateDataKey` and `decryptDataKey` of local-kms.provider.ts, after the constructor.
use messageries.Base.{
  All, All-append, Bool-cases, List, Option, Option-cases, [], ap, arith, drop, drop-append, false,
  inl, inr, length, none, refl, some, some_inj, subst, take-append, ℕ, ◌%◌, ◌++◌, ◌+◌, ◌<◌, ◌==◌,
  ◌∙◌, ◌∷◌, ◌≡◌,
}
use messageries.Base.Text.{Text, codes, text_eq, text_eq_sound, trim, trim-All}
use messageries.Crypto.LocalKms.{
  DataKey, LocalKmsProvider, active_name, choose_active, decrypt_data_key, frame, generate_data_key,
  key_of, local_kms, open_frame, open_tagged, parse_keys, parse_pair, set_key, wrap,
}
use messageries.Crypto.Node.{AreBytes, Bytes, HasNoColon, NodeCrypto, onto_first, split}

-- The active key is there, has 32 bytes, and no name has a colon in it.
pub record IsReady (kms : LocalKmsProvider) : Type 0 where
  pub kek : Bytes
  pub located : key_of kms.active kms.keys ≡ some kek
  pub length_kek : length kek ≡ 32
  pub name_clean : HasNoColon kms.active

-- A name in the map and its key.
abbrev IsUsable : Text × Bytes → Type 0
IsUsable k = HasNoColon k.0 × (length k.1 ≡ 32)

key_of-IsUsable :
    (name : Text) (ks : List (Text × Bytes)) (key : Bytes)
    → All IsUsable ks
    → key_of name ks ≡ some key
    → IsUsable (name, key)
unfolding key_of
key_of-IsUsable name [] key h e = absurd (ground arith)
key_of-IsUsable name (k ∷ ks) key h e = elim (Bool-cases (text_eq k.0 name)) [
  | inl t ↦ (
    subst HasNoColon (text_eq_sound k.0 name t) h.0.0,
    let same : some k.1 ≡ some key = ground arith in ground (arith, h.0.1),
  )
  | inr f ↦ key_of-IsUsable name ks key h.1 (ground arith)
]

set_key-IsUsable :
    (name : Text) (key : Bytes) (ks : List (Text × Bytes))
    → IsUsable (name, key)
    → All IsUsable ks
    → All IsUsable (set_key name key ks)
unfolding set_key
set_key-IsUsable name key [] u h = (u, tt)
set_key-IsUsable name key (k ∷ ks) u h = elim (Bool-cases (text_eq k.0 name)) [
  | inl t ↦ rw t ((h.0.0, u.1), h.1)
  | inr f ↦ rw f (h.0, set_key-IsUsable name key ks u h.1)
]

onto_first-HasNoColon :
    (c : ℕ) (ts : List Text)
    → (c == 58) ≡ false
    → All HasNoColon ts
    → All HasNoColon (onto_first c ts)
onto_first-HasNoColon c [] h a = ((h, tt), tt)
onto_first-HasNoColon c (t ∷ ts) h a = ((h, a.0), a.1)

-- The pieces between colons have none.
split-HasNoColon : (s : Text) → All HasNoColon (split 58 s)
unfolding split
split-HasNoColon [] = (tt, tt)
split-HasNoColon (c ∷ s) = elim (Bool-cases (c == 58)) [
  | inl t ↦ rw t (tt, split-HasNoColon s)
  | inr f ↦ rw f (onto_first-HasNoColon c (split 58 s) f (split-HasNoColon s))
]

module _ (node : NodeCrypto) where
  parse_pair-IsUsable :
      (pieces : List Text) (k : Text × Bytes)
      → All HasNoColon pieces
      → parse_pair node pieces ≡ some k
      → IsUsable k
  unfolding parse_pair
  parse_pair-IsUsable [] k h e = absurd (ground arith)
  parse_pair-IsUsable (id ∷ []) k h e = absurd (ground arith)
  parse_pair-IsUsable (id ∷ b64 ∷ rest) k h e =
      elim (Bool-cases (length (node.from_base64 b64) == 32)) [
        | inr f ↦ absurd (ground arith)
        | inl t ↦
            let same : some (trim id, node.from_base64 b64) ≡ some k = ground arith in
            subst IsUsable (some_inj _ _ same)
              (trim-All (λ c. (c == 58) ≡ false) id h.0, ground arith)
      ]

  parse_keys-IsUsable :
      (pairs : List Text) (ks ks' : List (Text × Bytes))
      → All IsUsable ks
      → parse_keys node pairs ks ≡ some ks'
      → All IsUsable ks'
  unfolding parse_keys
  parse_keys-IsUsable [] ks ks' h e = subst (All IsUsable) (some_inj _ _ e) h
  parse_keys-IsUsable (pair ∷ pairs) ks ks' h e =
      elim (Option-cases (parse_pair node (split 58 pair))) [
        | inl bad ↦ absurd (ground arith)
        | inr (k, parsed) ↦
            let u = parse_pair-IsUsable (split 58 pair) k (split-HasNoColon pair) parsed in
            parse_keys-IsUsable pairs (set_key k.0 k.1 ks) ks' (set_key-IsUsable k.0 k.1 ks u h)
              (ground arith)
      ]

  choose_active-IsReady :
      (named : Option Text) (ks : List (Text × Bytes)) (kms : LocalKmsProvider)
      → All IsUsable ks
      → choose_active named ks ≡ some kms
      → IsReady kms
  unfolding choose_active
  choose_active-IsReady named ks kms h e = elim (Option-cases (active_name named ks)) [
    | inl none_named ↦ absurd (ground arith)
    | inr (a, named_a) ↦ elim (Option-cases (key_of a ks)) [
      | inl missing ↦ absurd (ground arith)
      | inr (key, found) ↦
          let same : some (record { keys = ks; active = a }) ≡ some kms = ground arith in
          let usable = key_of-IsUsable a ks key h found in
          subst IsReady (some_inj _ _ same)
            (record { kek = key; located = found; length_kek = usable.1; name_clean = usable.0 })
    ]
  ]

  development :
      (call : ℕ)
      → IsReady (record {
        keys = (codes "dev-key-1", node.random call 32) ∷ [];
        active = codes "dev-key-1";
      })
  unfolding key_of
  development call = record {
    kek = node.random call 32;
    located = refl;
    length_kek = node.length-random call 32;
    name_clean = ground arith;
  }

  -- The constructor, where it does not throw, leaves a usable active key.
  pub local_kms-IsReady :
      (call : ℕ) (raw named : Option Text) (kms : LocalKmsProvider)
      → local_kms node call raw named ≡ some kms
      → IsReady kms
  unfolding local_kms
  local_kms-IsReady call none named kms e = subst IsReady (some_inj _ _ e) (development call)
  local_kms-IsReady call (some []) named kms e = subst IsReady (some_inj _ _ e) (development call)
  local_kms-IsReady call (some (c ∷ raw)) named kms e =
      elim (Option-cases (parse_keys node (split 44 (c ∷ raw)) [])) [
        | inl bad ↦ absurd (ground arith)
        | inr (ks, parsed) ↦
            choose_active-IsReady named ks kms
              (parse_keys-IsUsable (split 44 (c ∷ raw)) [] ks tt parsed) (ground arith)
      ]

  open_frame-frame :
      (kek iv tag wrapped : Bytes)
      → length iv ≡ 12
      → length tag ≡ 16
      → open_frame node kek (frame node iv tag wrapped) ≡ node.unseal kek iv tag wrapped
  unfolding open_frame open_tagged
  open_frame-frame kek iv tag wrapped hi ht =
      let n = length iv % 256 in
      let k = length tag % 256 in
      let rest = k ∷ (tag ++ wrapped) in
      ap (λ x. open_tagged node kek x (drop n (iv ++ rest))) (take-append n iv rest (omega arith))
      ∙ ap (λ y. open_tagged node kek iv y) (drop-append n iv rest (omega arith))
      ∙ ap (λ x. node.unseal kek iv x (drop k (tag ++ wrapped)))
          (take-append k tag wrapped (omega arith))
      ∙ ap (λ y. node.unseal kek iv tag y) (drop-append k tag wrapped (omega arith))

  -- A data key is unwrapped by every key service that has the key of that name, also one whose
  -- active key is another by then.
  pub unwrap_generated :
      (kms later : LocalKmsProvider) (call : ℕ) (d : DataKey)
      → IsReady kms
      → key_of kms.active later.keys ≡ key_of kms.active kms.keys
      → generate_data_key node kms call ≡ some d
      → decrypt_data_key node later d.key_id d.ciphertext ≡ some d.plaintext
  unfolding generate_data_key decrypt_data_key
  unwrap_generated kms later call d ready kept e =
      let key = node.random call 32 in
      let iv = node.random (call + 1) 12 in
      let sealed = node.seal ready.kek iv key in
      let opened =
        open_frame-frame ready.kek iv sealed.1 sealed.0 (node.length-random (call + 1) 12)
          (node.length-tag ready.kek iv key)
        ∙ node.unseal-seal ready.kek iv key ready.length_kek (node.random-AreBytes call 32) in
      ground (arith, ready.located, opened)

  pub wrap-AreBytes :
      (call : ℕ) (kek key : Bytes) → AreBytes key → AreBytes (wrap node call kek key)
  wrap-AreBytes call kek key bytes =
      let iv = node.random (call + 1) 12 in
      let (body, tag) = node.seal-AreBytes kek iv key bytes in
      let sealed = node.seal kek iv key in
      (
        omega arith,
        All-append (λ b. b < 256) iv ((length sealed.1 % 256) ∷ (sealed.1 ++ sealed.0))
            (node.random-AreBytes (call + 1) 12)
            (omega arith, All-append (λ b. b < 256) sealed.1 sealed.0 tag body),
      )

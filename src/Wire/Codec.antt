-- ===== src/Wire/Codec.antt =====
-- `encode` and `decode`, and what holds of them whatever the byte order of either machine.
use real_time_policy_authori.Common.{
  ℕ, ◌≡◌, ◌↔◌, refl, sym, ap, subst, ◌∙◌, Bool, true, false, List, length, take, if◌then◌else◌,
  ◌==◌, ==_iff, Bool-cases, ◌⊎◌, inl, inr,
}
use real_time_policy_authori.Wire.Bytes.{
  Host, little, big, total, of_le, IsBytes, store_all, load_all, swap_all, Fits,
}
use real_time_policy_authori.Wire.Fields.{
  store_all-swap_all, swap_all-load_all, length-store_all, store_all-IsBytes, load_all-store_all,
  store_all-load_all, load_all-Fits,
}
use real_time_policy_authori.Wire.Messages.{Message, magic_version, wire_msg_size}

module _ {M : Type 0} ⦃msg : Message M⦄ where
  -- `memcpy` of the struct; a big-endian host swaps a copy first
  unfoldable pub encode : Host → M → List ℕ
  encode little m = store_all little msg.layout (msg.fields m)
  encode big m = let tmp = msg.swap big m in store_all big msg.layout (msg.fields tmp)

  load : Host → List ℕ → M
  load h bytes = msg.build (load_all h msg.layout bytes)

  copied : Host → List ℕ → M
  unfolding load
  copied little bytes = load little bytes
  copied big bytes = msg.swap big (load big bytes)

  -- the result and what `out` holds afterwards
  unfoldable pub decode : Host → List ℕ → M → Bool × M
  unfolding copied
  decode h bytes out =
      if length bytes == wire_msg_size
      then (let out' = copied h bytes in (msg.magic out' == magic_version, out'))
      else (false, out)

  -- `encode` writes the same bytes on every host: each field of `m`, lowest byte first.
  encode_lem :
      (h : Host) (m : M)
      → Fits msg.layout (msg.fields m)
      → encode h m ≡ store_all little msg.layout (msg.fields m)
  unfolding encode
  encode_lem little m fits = refl
  encode_lem big m fits =
      rw (msg.fields-swap big m) (store_all-swap_all big msg.layout (msg.fields m) fits)

  copied_lem :
      (h : Host) (bytes : List ℕ)
      → length bytes ≡ total msg.layout
      → IsBytes bytes
      → copied h bytes ≡ msg.build (load_all little msg.layout bytes)
  unfolding copied load
  copied_lem little bytes n b = refl
  copied_lem big bytes n b =
      let m = msg.build (load_all big msg.layout bytes) in
      sym (msg.build-fields (msg.swap big m))
      ∙ ap msg.build (
          msg.fields-swap big m
          ∙ ap (swap_all big msg.layout) (msg.fields-load big bytes)
          ∙ swap_all-load_all big msg.layout bytes n b)

  -- A message whose fields fit their types and whose magic is right is decoded as itself, whatever
  -- the byte orders of the host that encodes and of the host that decodes, and whatever `out` held.
  pub decode-encode :
      (h h' : Host) (m out : M)
      → Fits msg.layout (msg.fields m)
      → msg.magic m ≡ magic_version
      → decode h' (encode h m) out ≡ (true, m)
  unfolding decode
  decode-encode h h' m out fits magic =
      let bytes = store_all little msg.layout (msg.fields m) in
      let n = length-store_all msg.layout (msg.fields m) fits in
      let copy : copied h' bytes ≡ m =
        copied_lem h' bytes n (store_all-IsBytes msg.layout (msg.fields m))
        ∙ ap msg.build (load_all-store_all msg.layout (msg.fields m) fits)
        ∙ msg.build-fields m in
      rw (encode_lem h m fits, n, msg.total-layout, copy, magic)

  -- Bytes that `decode` accepts are those that `encode` writes for the message it returned, on
  -- every pair of hosts: no byte of the datagram is lost.
  pub encode-decode :
      (h h' : Host) (bytes : List ℕ) (out : M)
      → IsBytes bytes
      → (decode h bytes out).0 ≡ true
      → encode h' (decode h bytes out).1 ≡ bytes
  unfolding decode
  encode-decode h h' bytes out b accepted = elim (Bool-cases (length bytes == wire_msg_size)) [
    | inl e ↦
        let n : length bytes ≡ total msg.layout = (==_iff _ _).0 e ∙ sym msg.total-layout in
        let vs = load_all little msg.layout bytes in
        let back : msg.fields (msg.build vs) ≡ vs = msg.fields-load little bytes in
        let fits = subst (Fits msg.layout) (sym back) (load_all-Fits msg.layout bytes n b) in
        rw (e, copied_lem h bytes n b, encode_lem h' (msg.build vs) fits, back)
          (store_all-load_all msg.layout bytes n b)
    | inr e ↦ cc (rw e at accepted)
  ]

  -- `decode` accepts exactly the datagrams of 64 bytes that begin with the magic, and if the length is
  -- not 64 it refuses and leaves `out` alone.
  pub decode_accepts :
      (h : Host) (bytes : List ℕ) (out : M)
      → IsBytes bytes
      → (((decode h bytes out).0 ≡ true)
          ↔ ((length bytes ≡ 64) × (of_le (take 4 bytes) ≡ 0x504C4301)))
        × ((length bytes ≡ 64) ⊎ (decode h bytes out ≡ (false, out)))
  unfolding decode
  decode_accepts h bytes out b = elim (Bool-cases (length bytes == wire_msg_size)) [
    | inl e ↦
        let n : length bytes ≡ 64 = (==_iff _ _).0 e in
        let copy = copied_lem h bytes (n ∙ sym msg.total-layout) b in
        rw (e, copy, msg.magic-load bytes)
          (((λ q. (n, (==_iff _ _).0 q)), (λ q. (==_iff _ _).1 q.1)), inl n)
    | inr e ↦ rw e (((λ q. cc q), (λ q. cc (sym e ∙ (==_iff _ _).1 q.0))), inr refl)
  ]

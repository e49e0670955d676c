-- ===== src/Watched/Text.antt =====
-- The text of a watched field, `{anchor video}:{anchor length}:{bit field}`. The anchor may hold
-- colons itself, so the parts are taken from the end.
use resolver_addon.BitField.{with_values}
use resolver_addon.BitField.Access.{IsValid}
use resolver_addon.BitField.Codec.{Codec, Error, error, invalid_format, unexpected}
use resolver_addon.BitField.Codec
use resolver_addon.Prelude.{
  ℕ, ◌-◌, ◌≡◌, ◌≢◌, ◌∙◌, List, [], ◌∷◌, ◌++◌, Option, none, some, Result, ok, err, ◌>>=◌, >>=-eq-ok,
  arith, ltb, if◌then◌else◌, length, get_or, take, length-append, length-ne-zero, take-append_left,
  get_or-append,
}
use resolver_addon.Prelude.Bytes.{
  Bytes, split, join, split-append, split-Lacks, join-split, split-cons, Lacks,
}
use resolver_addon.Prelude.Decimal.{itoa, atoi, atoi-itoa, itoa-Lacks, IsInt}
use resolver_addon.Prelude.Int.{ℤ}
use resolver_addon.Watched.{WatchedField, WatchedBitField, to_field, from_field}

abbrev colon : ℕ
colon = b':'

abbrev pub anchor_length_of : Option ℤ → Result Error ℤ
anchor_length_of none = err (error invalid_format "Cannot obtain the length field")
anchor_length_of (some n) = ok n

-- The field that is read back: the length of the bit field is that of its bytes.
abbrev pub reread : WatchedField → WatchedField
reread wf = record wf { bit_field = with_values wf.bit_field.values 0 }

module _ (codec : Codec) where
  -- WatchedField.MarshalText
  unfoldable pub marshal : WatchedField → Result Error Bytes
  marshal wf = do
    bitfield_str ← Codec.marshal codec wf.bit_field
    ok (wf.anchor_video ++ colon ∷ (itoa wf.anchor_length ++ colon ∷ bitfield_str))

  -- WatchedField.UnmarshalText, once the parts are told apart.
  unfoldable pub read_parts : List Bytes → Bytes → Bytes → Result Error WatchedField
  read_parts ids length_text bitfield_buf = do
    anchor_length ← anchor_length_of (atoi length_text)
    bit_field ← Codec.unmarshal codec bitfield_buf 0
    ok (record {
      anchor_video = join ids colon;
      anchor_length = anchor_length;
      bit_field = bit_field;
    })

  unfoldable pub unmarshal_parts : List Bytes → Result Error WatchedField
  unmarshal_parts components =
      let n = length components in
      if ltb n 3
      then err (error invalid_format "Not enough components")
      else read_parts (take (n - 2) components) (get_or components (n - 2) [])
          (get_or components (n - 1) [])

  unfoldable pub unmarshal : Bytes → Result Error WatchedField
  unfolding unmarshal_parts
  unmarshal text = unmarshal_parts (split text colon)

  -- WatchedBitField.MarshalText
  unfoldable pub marshal_bits : WatchedBitField → Result Error Bytes
  marshal_bits wbf = marshal (to_field wbf)

  -- NewWatchedBitFieldFromString, which calls WatchedBitField.UnmarshalText
  unfoldable pub from_string : Bytes → List Bytes → Result Error WatchedBitField
  from_string text video_ids = do wf ← unmarshal text; ok (from_field wf video_ids)

  get_or_first : (x : Bytes) (xs : List Bytes) (k : ℕ) → k ≡ 0 → get_or (x ∷ xs) k [] ≡ x
  get_or_first x xs k e = rw e

  get_or_second : (x y : Bytes) (k : ℕ) → k ≡ 1 → get_or (x ∷ y ∷ []) k [] ≡ y
  get_or_second x y k e = rw e

  unmarshal_parts-append :
      (ps : List Bytes) (n b : Bytes)
      → ps ≢ []
      → unmarshal_parts (ps ++ n ∷ b ∷ []) ≡ read_parts ps n b
  unfolding unmarshal_parts
  unmarshal_parts-append ps n b h =
      let cs = ps ++ n ∷ b ∷ [] in
      ground (
        arith,
        length-append ps (n ∷ b ∷ []),
        length-ne-zero ps h,
        take-append_left (length cs - 2) ps (n ∷ b ∷ []),
        get_or-append ps (n ∷ b ∷ []) (length cs - 2) [],
        get_or-append ps (n ∷ b ∷ []) (length cs - 1) [],
        get_or_first n (b ∷ []) (length cs - 2 - length ps),
        get_or_second n b (length cs - 1 - length ps),
      )

  unmarshal_lem :
      (v n b : Bytes)
      → Lacks colon n
      → Lacks colon b
      → unmarshal (v ++ colon ∷ (n ++ colon ∷ b)) ≡ read_parts (split v colon) n b
  unfolding unmarshal
  unmarshal_lem v n b hn hb =
      rw
        (
          split-append colon v (n ++ colon ∷ b),
          split-append colon n b,
          split-Lacks colon n hn,
          split-Lacks colon b hb,
        )
        (unmarshal_parts-append (split v colon) n b
          (λ e. let (p, ps, e') = split-cons colon v in cc))

  read_parts_lem :
      (wf : WatchedField) (b : Bytes)
      → IsInt wf.anchor_length
      → Codec.unmarshal codec b 0 ≡ ok (with_values wf.bit_field.values 0)
      → read_parts (split wf.anchor_video colon) (itoa wf.anchor_length) b ≡ ok (reread wf)
  unfolding read_parts
  read_parts_lem wf b hi e = rw (atoi-itoa wf.anchor_length hi, e, join-split colon wf.anchor_video)

  -- A printed field is read back, whatever the anchor is; the bit field's length is then that of
  -- its whole bytes. Conditions: the bit field is well formed, the anchor length is an int, and
  -- the field could be printed.
  pub unmarshal-marshal :
      (wf : WatchedField) {text : Bytes}
      → IsValid wf.bit_field
      → IsInt wf.anchor_length
      → marshal wf ≡ ok text
      → unmarshal text ≡ ok (reread wf)
  unfolding marshal
  unmarshal-marshal wf {text} hv hi e =
      let (b, e', t) = >>=-eq-ok (Codec.marshal codec wf.bit_field) _ e in
      let t' : wf.anchor_video ++ colon ∷ (itoa wf.anchor_length ++ colon ∷ b) ≡ text = cc in
      rw (← t') (
        unmarshal_lem wf.anchor_video (itoa wf.anchor_length) b
          (itoa-Lacks colon wf.anchor_length (omega arith))
          (Codec.marshal-Lacks codec wf.bit_field e')
        ∙ read_parts_lem wf b hi (Codec.unmarshal-marshal codec wf.bit_field 0 hv e'))

-- ===== src/Nanopb/Message/Extension.antt =====
-- `default_extension_encoder` and `encode_extension_field` of pb_encode.c. A `pb_extension_t` holds the
-- addresses of its type, of the data and of the next extension; a `pb_extension_type_t` those of its
-- two functions and `arg`.
use answrapp.Common.{ℕ, zero, suc, Option, none, some, ◌==◌, if◌then◌else◌}
use answrapp.Nanopb.Types.{Field, atype}
use answrapp.Nanopb.Types.Atype
use answrapp.Nanopb.Output.{fault, stuck, Encoder, ◌>>◌, return_true}
use answrapp.Nanopb.Iter.{field_at}
use answrapp.Nanopb.Memory.{load_pointer, shifted}
use answrapp.Nanopb.Message.{Context, MessageEncoder}
use answrapp.Nanopb.Message.Basic.{encode_field}

module _ (ctx : Context) (depth : ℕ) (submessage : MessageEncoder) where
  abbrev pub extension_type : ℕ → ℕ
  extension_type ext = load_pointer ctx.memory ext

  abbrev pub extension_dest : ℕ → ℕ
  extension_dest ext = load_pointer ctx.memory (shifted ext 8)

  abbrev pub extension_next : ℕ → ℕ
  extension_next ext = load_pointer ctx.memory (shifted ext 16)

  -- The field that `extension->type->arg` points to. A pointer field has its pointer in the extension.
  abbrev pub encode_extended : Option Field → ℕ → Encoder
  encode_extended none ext = λ s. fault
  encode_extended (some field) ext =
      encode_field ctx depth submessage field
        (if atype field.type == Atype.pointer then shifted ext 8 else extension_dest ext)

  unfoldable pub default_extension_encoder : ℕ → Encoder
  default_extension_encoder ext =
      encode_extended
        (field_at (ctx.descriptor (load_pointer ctx.memory (shifted (extension_type ext) 16))) 0)
        ext

  abbrev pub encode_extension : ℕ → Encoder
  encode_extension ext =
      let encode = load_pointer ctx.memory (shifted (extension_type ext) 8) in
      if encode == 0 then default_extension_encoder ext else ctx.extension encode ext

  -- The loop, with fuel for the length of the list.
  unfoldable pub encode_extensions : ℕ → ℕ → Encoder
  encode_extensions zero ext = λ s. stuck
  encode_extensions (suc fuel) ext =
      let more = encode_extensions fuel (extension_next ext) in
      if ext == 0 then return_true else (encode_extension ext >> more)

  unfoldable pub encode_extension_field : ℕ → ℕ → Encoder
  encode_extension_field fuel p = encode_extensions fuel (load_pointer ctx.memory p)

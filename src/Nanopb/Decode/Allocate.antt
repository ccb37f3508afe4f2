-- ===== src/Nanopb/Decode/Allocate.antt =====
-- `allocate_field` and `initialize_pointer_field` of pb_decode.c.
use answrapp.Common.{
  ℕ, ◌-◌, ◌*◌, ◌/◌, ◌%◌, ◌^◌, ◌&&◌, ◌||◌, none, some, ltb, leb, ◌==◌, if◌then◌else◌,
}
use answrapp.Nanopb.Types.{Field, ltype, invalid_size, size_too_large, realloc_failed}
use answrapp.Nanopb.Types.Ltype
use answrapp.Nanopb.Memory.{load_pointer}
use answrapp.Nanopb.Struct.{Store, Action, ◌>>◌, skip, write_zero}
use answrapp.Nanopb.Struct
use answrapp.Nanopb.Struct.Defaults.{message_set_to_defaults}
use answrapp.Nanopb.Decode.{done, Step, ◌>>=◌, raise, changing, loading, write_number, Context}

-- The call of `pb_realloc`.
abbrev pub reallocate : Context → ℕ → ℕ → Step ℕ
reallocate ctx ptr size s =
    let (p, store) = ctx.realloc ptr size s.store in
    done p (record { stream = s.stream; store = store })

-- `allocate_field` on the pointer at `p_data`.
unfoldable pub allocate_field : Context → ℕ → ℕ → ℕ → Step (Unit {0})
allocate_field ctx p_data data_size array_size = do
  ptr ← loading (λ mem. load_pointer mem p_data)
  let call = reallocate ctx ptr (array_size * data_size % 2 ^ 64)
  if data_size == 0 || array_size == 0
      then raise invalid_size
      else if (leb (2 ^ 32) data_size || leb (2 ^ 32) array_size)
          && ltb ((2 ^ 64 - 1) / array_size) data_size
      then raise size_too_large
      else (call >>= λ p. if p == 0 then raise realloc_failed else write_number p_data 8 p)

-- A submessage is set to 0 and then to its default values.
abbrev pub clear_submessage : Context → Field → ℕ → Action
clear_submessage ctx field p = Struct.◌>>◌ (write_zero p field.data_size) (elim field.ptr [
  | none ↦ (λ s. Struct.fault)
  | some fields ↦ message_set_to_defaults ctx.descriptor ctx.nesting (ctx.descriptor fields) p
])

-- `initialize_pointer_field`.
unfoldable pub initialize_pointer_field : Context → Field → ℕ → Step (Unit {0})
initialize_pointer_field ctx field p = changing (
    if ltype field.type == Ltype.string || ltype field.type == Ltype.bytes
    then write_zero p 8
    else if ltype field.type == Ltype.submessage
    then clear_submessage ctx field p
    else skip)

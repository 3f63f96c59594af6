-- ===== src/Smhc/Word.antt =====
-- The command word of `smhccmd`.
use front_mangopi_overlay.Smhc.{
  SdioCmd, with_init, with_response, with_data, command_word, cmdstart,
}
use front_mangopi_overlay.Base.Bits.Field.{fill_field}
use front_mangopi_overlay.Base.Bits.{bit_and-one, bit_or-add}
use front_mangopi_overlay.Base.{
  ap, ◌∙◌, ℕ, ◌+◌, ◌*◌, ◌/◌, ◌%◌, ◌^◌, ◌<◌, ◌≡◌, bit_or, ◌==◌, ltb, if◌then◌else◌, arith, ◌<<<◌,
}

-- What a command's word says to the controller, field by field.
pub record Encodes (cmd : SdioCmd) (w : ℕ) : Type 0 where
  pub index : w % 64 ≡ cmd.index
  -- a response, a long one, and its checksum
  pub response :
      w / 2 ^ 6 % 8
      ≡ (if cmd.resp == 0 then 0 else if cmd.resp == 2 then 7 else if cmd.resp == 3 then 1 else 5)
  pub has_data : w / 2 ^ 9 % 2 ≡ (if cmd.data_kind == 0 then 0 else 1)
  pub writes :
      w / 2 ^ 10 % 2 ≡ (if cmd.data_kind == 0 then 0 else if cmd.data_kind % 2 == 0 then 1 else 0)
  pub autostop : w / 2 ^ 12 % 2 ≡ (if ltb 2 cmd.data_kind then 1 else 0)
  pub waits : w / 2 ^ 13 % 2 ≡ w / 2 ^ 9 % 2
  pub init_sequence : w / 2 ^ 15 % 2 ≡ (if cmd.index == 0 then 1 else 0)
  pub start : w / 2 ^ 16 ≡ 2 ^ 15

or_15 : (x : ℕ) → x / 2 ^ 15 % 2 ≡ 0 → bit_or x (1 <<< 15) ≡ x + 2 ^ 15
or_15 x h =
    fill_field 15 1 (x / 2 ^ 16) 1 (x % 2 ^ 15) x (omega arith) (omega arith) (omega arith)
    ∙ omega arith

or_6 : (x f : ℕ) → x / 2 ^ 6 % 8 ≡ 0 → f < 8 → bit_or x (f * 2 ^ 6) ≡ x + f * 2 ^ 6
or_6 x f h hf =
    fill_field 6 3 (x / 2 ^ 9) f (x % 2 ^ 6) x (omega arith) hf (omega arith) ∙ omega arith

or_9 : (x : ℕ) → x / 2 ^ 9 % 32 ≡ 0 → bit_or x (bit_or (1 <<< 9) (1 <<< 13)) ≡ x + 17 * 2 ^ 9
or_9 x h =
    fill_field 9 5 (x / 2 ^ 14) 17 (x % 2 ^ 9) x (omega arith) (omega arith) (omega arith)
    ∙ omega arith

or_10 : (x : ℕ) → x / 2 ^ 10 % 2 ≡ 0 → bit_or x (1 <<< 10) ≡ x + 2 ^ 10
or_10 x h =
    fill_field 10 1 (x / 2 ^ 11) 1 (x % 2 ^ 10) x (omega arith) (omega arith) (omega arith)
    ∙ omega arith

or_12 : (x : ℕ) → x / 2 ^ 12 % 2 ≡ 0 → bit_or x (1 <<< 12) ≡ x + 2 ^ 12
or_12 x h =
    fill_field 12 1 (x / 2 ^ 13) 1 (x % 2 ^ 12) x (omega arith) (omega arith) (omega arith)
    ∙ omega arith

or_31 : (i : ℕ) → i < 64 → bit_or cmdstart i ≡ 2 ^ 31 + i
or_31 i h = bit_or-add 6 (2 ^ 25) i h

-- The sum of the parts.
abbrev init_flag : ℕ → ℕ
init_flag index = if index == 0 then 2 ^ 15 else 0

abbrev response_flags : ℕ → ℕ
response_flags resp =
    if resp == 0 then 0 else if resp == 2 then 7 * 2 ^ 6 else if resp == 3 then 2 ^ 6 else 5 * 2 ^ 6

abbrev data_flags : ℕ → ℕ
data_flags d =
    if d == 0
    then 0
    else 17 * 2 ^ 9 + (if d % 2 == 0 then 2 ^ 10 else 0) + (if ltb 2 d then 2 ^ 12 else 0)

init_sum : (i : ℕ) → i < 64 → with_init i (bit_or cmdstart i) ≡ 2 ^ 31 + i + init_flag i
unfolding with_init
init_sum i h = ground (arith, or_31 i h, or_15 (2 ^ 31 + i))

response_sum : (r c : ℕ) → c / 2 ^ 6 % 8 ≡ 0 → with_response r c ≡ c + response_flags r
unfolding with_response
response_sum r c h = ground (arith, or_6 c 7 h, or_6 c 1 h, or_6 c 5 h)

data_sum : (d c : ℕ) → c / 2 ^ 9 % 32 ≡ 0 → with_data d c ≡ c + data_flags d
unfolding with_data
data_sum d c h = ground (
  arith,
  bit_and-one d,
  or_9 c h,
  or_10 (c + 17 * 2 ^ 9),
  or_12 (c + 17 * 2 ^ 9),
  or_12 (c + 17 * 2 ^ 9 + 2 ^ 10),
)

word_sum :
    (cmd : SdioCmd)
    → cmd.index < 64
    → command_word cmd
      ≡ 2 ^ 31
        + cmd.index
        + init_flag cmd.index
        + response_flags cmd.resp
        + data_flags cmd.data_kind
unfolding command_word
word_sum cmd h =
    let first = 2 ^ 31 + cmd.index + init_flag cmd.index in
    let clear_6 : first / 2 ^ 6 % 8 ≡ 0 = ground arith in
    let clear_9 : (first + response_flags cmd.resp) / 2 ^ 9 % 32 ≡ 0 = ground arith in
    ap (λ c. with_data cmd.data_kind (with_response cmd.resp c)) (init_sum cmd.index h)
    ∙ ap (with_data cmd.data_kind) (response_sum cmd.resp first clear_6)
    ∙ data_sum cmd.data_kind (first + response_flags cmd.resp) clear_9

-- For every command whose number has 6 bits, the word for CMD holds the number, asks for the
-- response that the command has with its checksum except for type 3, says whether there is data, in
-- which direction, and whether the controller stops after several blocks, and sends the
-- initialisation sequence with command 0 only.
pub command_word-Encodes : (cmd : SdioCmd) → cmd.index < 64 → Encodes cmd (command_word cmd)
command_word-Encodes cmd h =
    let e = word_sum cmd h in
    rw e (record {
      index = ground arith;
      response = ground arith;
      has_data = ground arith;
      writes = ground arith;
      autostop = ground arith;
      waits = ground arith;
      init_sequence = ground arith;
      start = ground arith;
    })

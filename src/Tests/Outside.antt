-- ===== src/Tests/Outside.antt =====
-- Functions outside the repository, as the instances take them.
use u_forth.Prelude.{
  ℕ, Bool-cases, inl, inr, ◌==◌, if◌then◌else◌, Option, none, some, List, [], ◌∷◌, length, arith,
}
use u_forth.Machine.{pure, hw_read32, forth_push, forth_abort}
use u_forth.Numbers.{parse_forth_number}
use u_forth.Outside.{Outside}
use u_forth.Interpreter.Ends.{Extracts}

-- Tokens of one character, with any number of blanks before them.
unfoldable pub extract_next_token : List ℕ → Option (List ℕ) × List ℕ
extract_next_token [] = (none, [])
extract_next_token (c ∷ line) =
    let rest = extract_next_token line in if c == 32 then rest else (some (c ∷ []), line)

pub extract_next_token-Extracts : Extracts extract_next_token
unfolding extract_next_token
extract_next_token-Extracts [] = (omega arith, λ token e. cc)
extract_next_token-Extracts (c ∷ line) = elim (Bool-cases (c == 32)) [
  | inl blank ↦
      let (le, lt) = extract_next_token-Extracts line in
      rw (extract_next_token, blank) (omega arith, λ token e. omega (arith, lt token e))
  | inr other ↦ rw (extract_next_token, other) (omega arith, λ token e. omega arith)
]

abbrev pub outside : Outside
outside = record {
  hw_spi_ram_read32 = hw_read32;
  extract_next_token = extract_next_token;
  parse_next_token_to_buf = λ line. ([], line);
  dict_add_user_word = λ name xt payload. pure tt;
  dict_find_variable_address = λ name. pure 0;
  try_parse_number = parse_forth_number;
  process_numeric_token = forth_push;
  forth_abort_unknown_token = λ token. forth_abort;
  get_public_handler_by_id = λ xt. none;
  dummy_xt = pure tt;
  fopen = λ name mode. some 1;
  fgets_lines = λ stream. [];
  fread = λ stream n. [];
  fwrite = λ stream bytes. length bytes;
}

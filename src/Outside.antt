-- ===== src/Outside.antt =====
-- What forth_dict.c calls and the repository does not define, and the files of the host. Only their
-- types are fixed here; a theorem that relies on one of them says what it asks of it.
use u_forth.Prelude.{ℕ, List, Option}
use u_forth.Machine.{Action}

pub record Outside : Type 0 where
  -- `hw_spi_ram_read32(addr)`
  pub hw_spi_ram_read32 : ℕ → Action ℕ
  -- `extract_next_token(&p, token)`: the token where the result is not 0, and where `p` is left
  pub extract_next_token : List ℕ → Option (List ℕ) × List ℕ
  -- `parse_next_token_to_buf(&p, name)`: the name, and where `p` is left
  pub parse_next_token_to_buf : List ℕ → List ℕ × List ℕ
  -- `dict_add_user_word(name, xt, payload)`
  pub dict_add_user_word : List ℕ → ℕ → ℕ → Action (Unit {0})
  -- `dict_find_variable_address(name)`
  pub dict_find_variable_address : List ℕ → Action ℕ
  -- `try_parse_number(token, &value)`: the value where the result is not 0
  pub try_parse_number : List ℕ → Option ℕ
  -- `process_numeric_token(value)` and `forth_abort_unknown_token(token)`
  pub process_numeric_token : ℕ → Action (Unit {0})
  pub forth_abort_unknown_token : List ℕ → Action (Unit {0})
  -- `get_public_handler_by_id(xt)`, where `none` is NULL
  pub get_public_handler_by_id : ℕ → Option (Action (Unit {0}))
  -- `dummy_xt()`
  pub dummy_xt : Action (Unit {0})
  -- `fopen(name, mode)`: a stream, or `none` for NULL
  pub fopen : List ℕ → List ℕ → Option ℕ
  -- the lines that `fgets` takes from a stream, one after the other
  pub fgets_lines : ℕ → List (List ℕ)
  -- `fread(buffer, 1, n, f)`: the bytes; `fwrite(bytes, 1, n, f)`: how many were written
  pub fread : ℕ → ℕ → List ℕ
  pub fwrite : ℕ → List ℕ → ℕ

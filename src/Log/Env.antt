-- ===== src/Log/Env.antt =====
-- What LogModule/LogModule.cpp calls and does not implement: the Windows API, the file and time
-- functions of the C runtime, the allocator, the callback that the host program may install, and
-- the TinyXML document. `W` is the world that those calls read and change, `D` a parsed document
-- and `E` an element of it.
use winservice.Base.{ℕ, Bool, ℤ, Text, Option, List}

-- `SYSTEMTIME`; its fields are 16-bit.
pub record SystemTime : Type 0 where
  pub year : ℕ
  pub month : ℕ
  pub day : ℕ
  pub hour : ℕ
  pub minute : ℕ
  pub second : ℕ
  pub milliseconds : ℕ

pub record LogEnv (W D E : Type 0) : Type 0 where
  -- `GetModuleFileNameA(NULL, …)`, `none` where it returns 0.
  pub module_file_name : W → Option Text
  pub last_error : W → ℕ
  -- `PathRemoveFileSpecA`
  pub remove_file_spec : Text → Text
  -- `PathFileExistsA`
  pub path_exists : Text → W → Bool
  -- `_stat`: the size of the file, `none` where it fails.
  pub stat : Text → W → Option ℤ
  pub delete_file : Text → W → W
  pub create_directory : Text → W → Bool × W
  -- `fopen_s(…, path, "a")`: whether the file is open.
  pub open_append : Text → W → Bool × W
  -- `fprintf` to the file that is open at a path, and `fclose`.
  pub print_file : Text → Text → W → W
  pub close_file : Text → W → W
  -- `printf`
  pub print_out : Text → W → W
  pub local_time : W → SystemTime
  pub malloc : ℕ → W → Option ℕ × W
  -- The program's own `LogFunc`, by its address, at a prefix and the text of the format with its
  -- arguments.
  pub call_user : ℕ → Text → Text → W → W
  -- `new TiXmlDocument(path)`: the block of the object.
  pub new_document : Text → W → ℕ × W
  -- The blocks of the tree below a document, and of the part of it that a failed `LoadFile` made.
  pub tree_blocks : D → List ℕ
  pub failed_blocks : Text → W → List ℕ
  -- `LoadFile` of a document with that path, `none` where it returns false.
  pub load_file : Text → W → Option D
  pub save_file : D → Text → W → W
  pub root_element : D → Option E
  -- The elements that `FirstChildElement` and then `NextSiblingElement` visit.
  pub child_elements : D → E → List E
  pub value : D → E → Text
  -- `GetText`, `none` for NULL.
  pub get_text : D → E → Option Text
  pub clear : E → D → D
  -- `LinkEndChild(new TiXmlText(text))`
  pub link_text : E → Text → D → D
  -- `new TiXmlElement(name)`
  pub new_element : Text → D → E × D
  -- `LinkEndChild` of an element: the parent, then the child.
  pub link_child : E → E → D → D

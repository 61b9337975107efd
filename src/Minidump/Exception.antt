-- ===== src/Minidump/Exception.antt =====
-- `WinExceptionWithMessage` of inc/WinExcepeion.h, in the build without `_DEBUG`. `none` is the
-- invalid-parameter handler of a bounded C function, or the reading of an array without a NUL.
use winservice.Base.{
  ℕ, ◌+◌, ◌<◌, ◌≡◌, refl, Text, Buffer, Option, none, some, ◌++◌, ◌∷◌, replicate, length, drop,
  c_string, memcpy_s, sprintf_s,
}
use winservice.Base.Strings.{NoNul, sprintf_s-fits, c_string-append_nul, memcpy_s-fits}

abbrev pub err_msg_len : ℕ
err_msg_len = 1024

abbrev pub max_path : ℕ
max_path = 260

pub record WinException : Type 0 where
  pub err_msg : Buffer
  pub err_code : ℕ
  pub source_file : Buffer
  pub line : ℕ

-- The constructor; `fresh` is what the array `m_SourceFile` holds before, and `message` the text of
-- the format and its arguments. `strcpy_s` is `sprintf_s` with `"%s"`.
unfoldable pub new_exception : Buffer → ℕ → Text → ℕ → Text → Option WinException
new_exception fresh code source_file line message = elim (sprintf_s max_path source_file fresh) [
  | none ↦ none
  | some file ↦ elim (sprintf_s err_msg_len message (replicate err_msg_len 0)) [
    | none ↦ none
    | some text ↦ some (record { err_msg = text; err_code = code; source_file = file; line = line })
  ]
]

-- The copy constructor.
unfoldable pub copy_exception : WinException → Option WinException
copy_exception other = elim (c_string other.err_msg) [
  | none ↦ none
  | some message ↦ elim (memcpy_s err_msg_len message (replicate err_msg_len 0)) [
    | none ↦ none
    | some text ↦ elim (c_string other.source_file) [
      | none ↦ none
      | some source_file ↦ elim (sprintf_s max_path source_file (replicate max_path 0)) [
        | none ↦ none
        | some file ↦ some (record {
          err_msg = text;
          err_code = other.err_code;
          source_file = file;
          line = other.line;
        })
      ]
    ]
  ]
]

-- `what`, `GetErrorFile`, `GetErrorCode` and `GetErrorLine`
abbrev pub what : WinException → Option Text
what e = c_string e.err_msg

abbrev pub get_error_file : WinException → Option Text
get_error_file e = c_string e.source_file

abbrev pub get_error_code : WinException → ℕ
get_error_code e = e.err_code

abbrev pub get_error_line : WinException → ℕ
get_error_line e = e.line

-- `operator=` assigns the base class alone.
unfoldable pub assign : WinException → WinException → WinException
assign this other = this

-- The exception reports these four.
pub record Reports (e : WinException) (code : ℕ) (source_file : Text) (line : ℕ) (message : Text)
    : Type 0 where
  pub message_is : what e ≡ some message
  pub file_is : get_error_file e ≡ some source_file
  pub code_is : get_error_code e ≡ code
  pub line_is : get_error_line e ≡ line

new_exception-Reports :
    (fresh : Buffer) (code : ℕ) (source_file : Text) (line : ℕ) (message : Text)
    → NoNul source_file
    → NoNul message
    → length source_file < max_path
    → length message < err_msg_len
    → (e : WinException) × (new_exception fresh code source_file line message ≡ some e)
      × Reports e code source_file line message
unfolding new_exception
new_exception-Reports fresh code source_file line message file_text text short_file short = (
  record {
    err_msg = message ++ 0 ∷ drop (length message + 1) (replicate err_msg_len 0);
    err_code = code;
    source_file = source_file ++ 0 ∷ drop (length source_file + 1) fresh;
    line = line;
  },
  rw
      (
        new_exception,
        sprintf_s-fits max_path source_file fresh short_file,
        sprintf_s-fits err_msg_len message (replicate err_msg_len 0) short,
      )
      refl,
  record {
    message_is = c_string-append_nul message _ text;
    file_is = c_string-append_nul source_file _ file_text;
    code_is = refl;
    line_is = refl;
  },
)

copy_exception-Reports :
    (e : WinException) (code : ℕ) (source_file : Text) (line : ℕ) (message : Text)
    → NoNul source_file
    → NoNul message
    → length source_file < max_path
    → length message < err_msg_len
    → Reports e code source_file line message
    → (copy : WinException) × (copy_exception e ≡ some copy)
      × Reports copy code source_file line message
unfolding copy_exception
copy_exception-Reports e code source_file line message file_text text short_file short reports =
    let (buf, copied, read) = memcpy_s-fits message err_msg_len text short in
    (
      record {
        err_msg = buf;
        err_code = e.err_code;
        source_file = source_file ++ 0 ∷ drop (length source_file + 1) (replicate max_path 0);
        line = e.line;
      },
      rw
          (
            copy_exception,
            reports.message_is,
            copied,
            reports.file_is,
            sprintf_s-fits max_path source_file (replicate max_path 0) short_file,
          )
          refl,
      record {
        message_is = read;
        file_is = c_string-append_nul source_file _ file_text;
        code_is = reports.code_is;
        line_is = reports.line_is;
      },
    )

-- With a message and a file name that fit their arrays, the constructor makes an exception, and the
-- copy constructor a copy of it, which both report the message, the file, the code and the line.
pub new_copy-Reports :
    (fresh : Buffer) (code : ℕ) (source_file : Text) (line : ℕ) (message : Text)
    → NoNul source_file
    → NoNul message
    → length source_file < max_path
    → length message < err_msg_len
    → (e : WinException) × (copy : WinException) × (new_exception fresh code source_file line
          message
        ≡ some e)
      × (copy_exception e ≡ some copy)
      × Reports e code source_file line message
      × Reports copy code source_file line message
new_copy-Reports fresh code source_file line message file_text text short_file short =
    let (e, made, reports) =
      new_exception-Reports fresh code source_file line message file_text text short_file short in
    let (copy, copied, same) =
      copy_exception-Reports e code source_file line message file_text text short_file short
        reports in
    (e, copy, made, copied, reports, same)

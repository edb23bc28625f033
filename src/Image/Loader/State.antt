-- ===== src/Image/Loader/State.antt =====
-- The state of a load: the image, the warnings and the reader.
use pe_bliss.Base.{ℕ, Bool, false, Option, none, some, [], ◌∷◌, List, map, replicate}
use pe_bliss.Errors.{Error, Result, ok, err}
use pe_bliss.Errors.List.{ErrorList}
use pe_bliss.Buffers.Input.{Buffer}
use pe_bliss.Buffers.Reader.{Reader}
use pe_bliss.Buffers.RefBuffer.{RefBuffer, new, contents_of}
use pe_bliss.Dos.{DosHeader}
use pe_bliss.Core.FileHeader.{FileHeader}
use pe_bliss.Core.OptionalHeader.{OptionalHeader}
use pe_bliss.Core.OptionalHeader.Bytes.{header_32_of}
use pe_bliss.Core.DataDirectories.{DataDirectories}
use pe_bliss.Section.Table.{SectionTable}
use pe_bliss.Image.Layout.{Image}

-- class image.
pub record LoadedImage : Type 0 where
  pub dos_header : DosHeader
  pub dos_stub : RefBuffer
  pub image_signature : ℕ
  pub file_header : FileHeader
  pub optional_header : OptionalHeader
  pub data_directories : DataDirectories
  pub section_table : SectionTable
  pub section_list : List RefBuffer
  pub overlay : RefBuffer
  pub full_headers_buffer : RefBuffer
  pub full_sections_buffer : RefBuffer
  pub loaded_to_memory : Bool

-- The parts of the image that the modules of Image read.
unfoldable pub image_of : LoadedImage → Image
image_of i = record {
  e_lfanew = i.dos_header.e_lfanew;
  optional_header = i.optional_header;
  machine = i.file_header.machine;
  data_directories = i.data_directories;
  section_table = i.section_table;
  section_data_list = map contents_of i.section_list;
  overlay = contents_of i.overlay;
  full_headers_buffer = contents_of i.full_headers_buffer;
  full_sections_buffer = contents_of i.full_sections_buffer;
}

-- The default constructors: all numbers are zero.
abbrev pub no_dos_header : DosHeader
no_dos_header = record {
  e_magic = 0;
  e_cblp = 0;
  e_cp = 0;
  e_crlc = 0;
  e_cparhdr = 0;
  e_minalloc = 0;
  e_maxalloc = 0;
  e_ss = 0;
  e_sp = 0;
  e_csum = 0;
  e_ip = 0;
  e_cs = 0;
  e_lfarlc = 0;
  e_ovno = 0;
  e_res = replicate 4 0;
  e_oemid = 0;
  e_oeminfo = 0;
  e_res2 = replicate 10 0;
  e_lfanew = 0;
}

abbrev pub no_file_header : FileHeader
no_file_header = record {
  machine = 0;
  number_of_sections = 0;
  time_date_stamp = 0;
  pointer_to_symbol_table = 0;
  number_of_symbols = 0;
  size_of_optional_header = 0;
  characteristics = 0;
  buffer_pos = 0;
}

unfoldable pub new_image : LoadedImage
new_image = record {
  dos_header = no_dos_header;
  dos_stub = new;
  image_signature = 0;
  file_header = no_file_header;
  optional_header = header_32_of [];
  data_directories = [];
  section_table = [];
  section_list = [];
  overlay = new;
  full_headers_buffer = new;
  full_sections_buffer = new;
  loaded_to_memory = false;
}

pub record LoadState : Type 0 where
  pub image : LoadedImage
  pub warnings : ErrorList
  pub wrapper : Reader

unfoldable pub started : LoadedImage → Buffer → LoadState
started image buffer = record {
  image = image;
  warnings = [];
  wrapper = record { buffer = buffer; position = 0 };
}

-- The state behind a step, and what it throws.
abbrev pub Step : Type 0
Step = LoadState → LoadState × Option Error

abbrev pub continue : LoadState × Option Error → Step → LoadState × Option Error
continue (st, some e) rest = (st, some e)
continue (st, none) rest = rest st

unfoldable pub then_step : Step → Step → Step
then_step step rest st = continue (step st) rest

-- One step after the other, up to one that throws.
unfoldable pub run : List Step → Step
run [] st = (st, none)
run (step ∷ steps) st = then_step step (run steps) st

-- The `try` and `catch` of a call: what follows on its value, and what is done about its error.
unfoldable pub try_catch {ℓ κ} : {A : Type ℓ} → {B : Type κ} → Result A → (A → B) → (Error → B) → B
try_catch (ok a) body handler = body a
try_catch (err e) body handler = handler e

-- A call whose result changes the state, unless it throws.
abbrev pub store {ℓ} :
    {A : Type ℓ} → LoadState → Result A → (A → LoadState) → LoadState × Option Error
store st r put = try_catch r (λ a. (put a, none)) (λ e. (st, some e))

-- A call that moves the reader.
abbrev pub move_reader : LoadState → Result Reader → LoadState × Option Error
move_reader st r = store st r (λ after. record st { wrapper = after })

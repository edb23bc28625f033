-- ===== src/Image/Loader/Laws.antt =====
-- About every load: the image behind it is one that the functions on addresses work with.
pub mod HeadersSize
pub mod Run
pub mod Parts
pub mod Readers
pub mod Steps
pub mod Sections
pub mod Same
pub mod Data
pub mod Bytes
pub mod Addresses
pub mod Ends
pub mod Fatal
pub mod Reads
pub mod Goes
pub mod Success
use pe_bliss.Base.{List, [], ◌∷◌, ◌≡◌, refl, ◌^◌, ◌<◌, arith, All}
use pe_bliss.Buffers.Input.{Buffer}
use pe_bliss.Buffers.Input.Contents.{contents}
use pe_bliss.Packed.Struct
use pe_bliss.Packed.Struct.Fields.{IsByte}
use pe_bliss.Section.Data.Laws.{HasRoom}
use pe_bliss.Core.OptionalHeader.Bytes.{header_32_of}
use pe_bliss.Image.SectionData.Laws.{IsLoaded}
use pe_bliss.Image.Loader
use pe_bliss.Image.Loader.{load_steps, load_into}
use pe_bliss.Image.Loader.State.{Step, image_of, run, started, new_image}
use pe_bliss.Image.Loader.Headers.{ImageLoadOptions}
use pe_bliss.Image.Loader.Laws.Readers.{Inv}
use pe_bliss.Image.Loader.Laws.Parts.{new-IsUsable, parts-IsLoaded}
use pe_bliss.Image.Loader.Laws.Steps.{Keeps, header_steps-Keep}
use pe_bliss.Image.Loader.Laws.Sections.{load_section_data-Keeps, buffer_steps-Keep}
use pe_bliss.Image.Loader.Laws.Run.{run-Leads}
use pe_bliss.Image.Loader.{header_steps, buffer_steps}
use pe_bliss.Image.Loader.Sections.{load_section_data}

module _ (b : Buffer) (room : HasRoom b) (bytes : All IsByte (contents b))
    (options : ImageLoadOptions) where
  pub started-Inv : Inv b room bytes (started new_image b)
  unfolding started new_image header_32_of Struct.deserialize
  started-Inv = ((tt, omega arith, new-IsUsable, tt), refl)

  -- For a valid buffer of fewer than 2 ^ 62 bytes, each below 256, at offsets below 2 ^ 62, and
  -- all options: the image behind the load is one that the functions on addresses work with,
  -- whether or not the load has ended by a fatal error: the headers of its sections and their
  -- alignment are 32-bit words, and its buffers are valid and leave room for 32-bit offsets.
  pub load-IsLoaded : IsLoaded (image_of (Loader.load b options).image)
  unfolding Loader.load load_into load_steps
  load-IsLoaded =
      let inv = Inv b room bytes in
      let leads =
        run-Leads inv inv (header_steps options) (load_section_data options) (buffer_steps options)
          (λ st i. i) (header_steps-Keep b room bytes options)
          (load_section_data-Keeps b room bytes options) (buffer_steps-Keep b room bytes options) in
      parts-IsLoaded _ (leads (started new_image b) started-Inv).0

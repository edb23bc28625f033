-- ===== src/Lib.antt =====
-- pe_bliss2 reads, checks, changes and builds PE executables. This library models the core that the
-- rest of it stands on, in the layers of the program:
--
--   Base              shared names, Boolean tests, lists, words and bit operations
--   Errors            the error codes and results; Errors.List is pe_bliss2/src/error_list.cpp
--   Utilities         utilities/include/utilities/math.h and safe_uint.h: checked sums and alignment
--   Buffers           buffers/src: Input and Views are the input buffers, their reads and the views
--                     of a part of them; Reader is input_buffer_stateful_wrapper.cpp, Output the two
--                     memory outputs, Copy buffer_copy.cpp and RefBuffer ref_buffer.cpp
--   Section           pe_bliss2/src/section: Header is section_header.cpp, Search section_search.cpp,
--                     Table section_table.cpp, Data section_data.cpp, Validator the two validators;
--                     Bytes, below Header and Table, is how they are read
--   Dos               pe_bliss2/src/dos: the DOS header with its validator, and the stub
--   Core              pe_bliss2/src/core: OptionalHeader with its validator, DataDirectories,
--                     FileHeader, ImageSignature and Overlay; Bytes is how they are read
--   Image             pe_bliss2/src: AddressConverter is address_converter.cpp; in image/,
--                     SectionSearch is image_section_search.cpp and OffsetConverter
--                     rva_file_offset_converter.cpp, SectionData section_data_from_va.cpp with
--                     Length section_data_length_from_va.cpp, Checksum checksum.cpp, Structures
--                     include/pe_bliss2/image/struct_from_va.h, Writes struct_to_va.h there, and
--                     Strings string_from_va.cpp and string_to_va.cpp; Loader is
--                     image_loader.cpp, whose State is the image with the warnings and the reader,
--                     and whose steps are in Headers and Sections
--   Packed            pe_bliss2: Struct is include/pe_bliss2/packed_struct.h with the numbers of
--                     detail/packed_serialization.h there, CString src/packed_c_string.cpp
--   Rich              pe_bliss2/src: Utils is detail/rich/rich_header_utils.cpp; in rich/, Loader is
--                     rich_header_loader.cpp and Builder rich_header_builder.cpp
--   Relocations       pe_bliss2/src/relocations: Entry is relocation_entry.cpp, Builder
--                     relocation_directory_builder.cpp, Loader relocation_directory_loader.cpp and
--                     Rebase image_rebase.cpp
--
-- How the parts interact: the buffers hand out bytes and views of bytes, the headers say which of
-- them a section has in the file and in memory, the validators say when headers fit together, and
-- the conversions of addresses search the sections. The loader reads the headers and the data of
-- the sections out of a buffer, and what it leaves is what the functions on addresses ask for.
-- Most sums of sizes and addresses are the checked ones of Utilities; the others wrap as in the
-- code.
--
-- How code corresponds to definitions. A structure is a record of its fields, which are numbers; a
-- record `IsValid` says which words they are. A method takes the object first and returns the new
-- one. A word of `w` bits wraps where the code's type does: `add_wrap w`, `sub_wrap w`, `cast w`;
-- `std::size_t` has 64 bits. An exception is an `err` of its code, a code that wraps another is
-- the outer one, and a reference that is changed in place with a success flag is an `Option` of
-- the new value. A step of the loader gives the state behind it, also where it throws. An iterator
-- into a list is an index with the element there. Loops over lists are structural recursion. Other
-- loops run on fuel, and `out_of_fuel` or a theorem says what becomes of a loop that needs more:
-- the checksum has the physical size of the buffer, of which each round takes at least a byte; a
-- copy has its count and one more; the relocation loader has the count of entries of a block and
-- one more, and the size of the directory and one more, since each round moves on; the scan of a
-- string has the size of the buffer and one more, since each round that goes on has read a
-- character.
--
-- Not modelled: input and output of streams, pointers into buffers (`get_raw_data`), copies that
-- two `ref_buffer`s share, compile-time reflection of packed structures, strings with a length in
-- front, the checksum of a rich header over the headers, the builder of an image and the updates of
-- its headers, which write the structures that are read here, and the directory formats but
-- relocations (imports, exports, resources, security, load config, exceptions, debug, .NET), which
-- read structures through these parts.
pub mod Base
pub mod Errors
pub mod Utilities
pub mod Section
pub mod Core
pub mod Buffers
pub mod Image
pub mod Relocations
pub mod Packed
pub mod Dos
pub mod Rich

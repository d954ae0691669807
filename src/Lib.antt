-- ===== src/Lib.antt =====
-- Verification of the native library of UnityGameLocalizationDemo (app/src/main/cpp).
--
-- The library is loaded into a Unity game, finds the functions `get_text` and `set_text` of the
-- game's il2cpp library, hooks them, and replaces the texts that pass through them by the
-- translations of a dictionary file.
--
-- The parts and the files that model them:
--   Prelude, Run      lists and numbers that the parts share, and runs of C code: a fault is where C
--                     leaves the behaviour undefined (NULL read, buffer overrun).
--   Tools             app/src/main/cpp/Tools/tools.cpp: UTF8_to_Unicode (Utf8), tolower_unicode
--                     (Lower), memcmp_plus (Search), find_module_by_name and strtol (Hex), the
--                     calls that show something (Rate), hexDump (Dump); Tools/junk.h (Junk).
--   Localize          Dictionary: the buffer that readFile fills, cut by strtok and strstr.
--                     Translate: new_func_set and new_func_get of inject_dobby.cpp, which share the
--                     text of their loop (`scan`); find_entry is its search, splice builds the new
--                     string. Prefix: the two hooks of inject_inlinehook.cpp.
--   Inject            Startup: inject_dobby.cpp from JNI_OnLoad to new_func_get_methods. The globals
--                     are the record App; what the system answers is the record System; DobbyHook
--                     is a function on the process's code. Inline: the start of
--                     inject_inlinehook.cpp, whose hooks are those of InlineHook; what the linker
--                     and the kernel answer is the record Engine. Experiment: inject_test.cpp, and
--                     inject_test_dobby.cpp in Experiment/Dobby.
--   Relocate          app/src/main/cpp/inlineHook/relocate.c: Classify (getTypeIn..), Thumb16,
--                     Thumb32, Arm (the code that replaces an instruction), Thumb and Arm (the
--                     loops), Boundaries (the arrays of a hook item), Entry (relocateInstruction).
--                     Arm/Machine and Thumb16/Machine describe the instructions that read the
--                     program counter as the architecture does, apart from the source; the emitted
--                     words are run on them.
--   InlineHook        app/src/main/cpp/inlineHook/inlineHook.c: World (the state: table, memory,
--                     threads, flushed ranges), Threads (freeze), Items (the table), Operations
--                     (registerInlineHook, inlineHook, inlineUnHook and their loops over all items).
--   NativeLib         app/src/main/cpp/native-lib.cpp: encode, and what MainEnter and the constructors
--                     show.
-- How they interact: Startup reads the file and installs the hooks; the hooks of Localize read the
-- dictionary through the text tools; the hooks of inject_inlinehook.cpp are installed through
-- InlineHook, which calls Relocate to fill a trampoline. Inject/Inline puts the three together:
-- Outcome is the world that one hook leaves, Layout and ThumbLayout are what it writes, Calls,
-- Resume and ThumbCalls run that on the machines of Relocate, Kept does so for two functions that
-- are hooked one after the other, Both for those that the hook of dlopen hooks, and Undo takes the
-- hook away again.
--
-- Numbers are natural numbers; where the source works on 32 bits the wrap-around is written out. Byte
-- buffers are lists, and a managed string is the memory from its address on. The loops of the text
-- hooks, of memcmp_plus and of the Arm relocation recurse on what is left to do. The Thumb loop has
-- `length + 1` rounds of fuel, enough since each round moves on by a halfword at least; the loop of
-- inlineUnHookAll has one more than the slots in use, enough since each round either deletes one or
-- moves on.
--
-- Not modelled: Dobby (a copy of another project), the Java sample, and what is called in the JVM.
-- Memory allocation is taken to succeed. mprotect, ptrace and the child process have no effect but
-- the one on the threads' PCs. The machine of Relocate/Arm has the condition `always` only, no rotated
-- constants, and not the addition of a register to the program counter; that of Relocate/Thumb16 has
-- no BX, ADR and ADD, of the 32-bit instructions only those that do not involve the program counter,
-- and no IT.
pub mod Prelude
pub mod Run
pub mod Tools
pub mod Localize
pub mod Relocate
pub mod InlineHook
pub mod Inject
pub mod NativeLib

-- ===== src/Licence.antt =====
-- service/customer/program.none.cpp, program.oss.cpp and program.seznam.cz.cpp: what a build for each
-- customer says of its licence.
use libservice.Prelude.{Text, lit, [], ◌++◌}
use libservice.Os.{M, pure}

-- The four functions of `Program` that each of the files defines.
pub record Licence : Type 0 where
  pub copyright : Text
  pub licence : Text
  pub licensee : Text
  pub licence_check : M (Unit {0})

abbrev copyright : Text
copyright =
    lit "Copyright (C) 2011-2022 Melown Technologies SE\n"
    ++ lit "Strakonicka 3363/2d, 150 00 Praha 5, Czech Republic"

-- A build for no customer.
abbrev internal : Licence
internal = record {
  copyright = copyright;
  licence =
      lit "\n"
      ++ lit "This is a proprietary software. For internal purposes only.\n"
      ++ lit "Not to be redistributed.";
  licensee = lit "Melown Technologies SE";
  licence_check = pure tt;
}

-- An open source build.
abbrev oss : Licence
oss = record {
  copyright = copyright;
  licence =
      lit "\n"
      ++ lit "Redistribution and use in source and binary forms, with or without\n"
      ++ lit "modification, are permitted provided that the following conditions are met:\n"
      ++ lit "\n"
      ++ lit "*  Redistributions of source code must retain the above copyright notice,\n"
      ++ lit "   this list of conditions and the following disclaimer.\n"
      ++ lit "\n"
      ++ lit "*  Redistributions in binary form must reproduce the above copyright\n"
      ++ lit "   notice, this list of conditions and the following disclaimer in the\n"
      ++ lit "   documentation and/or other materials provided with the distribution.\n"
      ++ lit "\n"
      ++ lit "THIS SOFTWARE IS PROVIDED BY THE COPYRIGHT HOLDERS AND CONTRIBUTORS \"AS IS\"\n"
      ++ lit "AND ANY EXPRESS OR IMPLIED WARRANTIES, INCLUDING, BUT NOT LIMITED TO, THE\n"
      ++ lit "IMPLIED WARRANTIES OF MERCHANTABILITY AND FITNESS FOR A PARTICULAR PURPOSE\n"
      ++ lit "ARE DISCLAIMED.  IN NO EVENT SHALL THE COPYRIGHT HOLDER OR CONTRIBUTORS BE\n"
      ++ lit "LIABLE FOR ANY DIRECT, INDIRECT, INCIDENTAL, SPECIAL, EXEMPLARY, OR\n"
      ++ lit "CONSEQUENTIAL DAMAGES (INCLUDING, BUT NOT LIMITED TO, PROCUREMENT OF\n"
      ++ lit "SUBSTITUTE GOODS OR SERVICES; LOSS OF USE, DATA, OR PROFITS; OR BUSINESS\n"
      ++ lit "INTERRUPTION) HOWEVER CAUSED AND ON ANY THEORY OF LIABILITY, WHETHER IN\n"
      ++ lit "CONTRACT, STRICT LIABILITY, OR TORT (INCLUDING NEGLIGENCE OR OTHERWISE)\n"
      ++ lit "ARISING IN ANY WAY OUT OF THE USE OF THIS SOFTWARE, EVEN IF ADVISED OF THE\n"
      ++ lit "POSSIBILITY OF SUCH DAMAGE.\n";
  licensee = [];
  licence_check = pure tt;
}

-- A build for Seznam.cz.
abbrev seznam : Licence
seznam = record {
  copyright = copyright;
  licence =
      lit "\n"
      ++ lit "Scope of the licence is subject to the licence agreement.\n"
      ++ lit "\n"
      ++ lit "This is a proprietary software. To be used only with valid licence.\n"
      ++ lit "Not to be redistributed.";
  licensee = lit "Seznam.cz, a.s";
  licence_check = pure tt;
}

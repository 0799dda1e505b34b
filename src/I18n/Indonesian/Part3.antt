-- ===== src/I18n/Indonesian/Part3.antt =====
-- web/src/lib/i18n/id.ts, lines 251 to 370.
use ku_crud.Base.{String, [], ◌∷◌}
use ku_crud.Base.Assoc.{Assoc}

abbrev pub indonesian_3 : Assoc String
indonesian_3 =
    ("col.displayLabel", "Label Tampilan")
    ∷ (
      "col.displayLabelHelp",
      "Nama yang mudah dibaca pada header tabel dan label formulir CRUD, menggantikan nama kolom basis data mentah.",
    )
    ∷ ("col.labelPh", "Label kolom")
    ∷ ("col.fieldType", "Tipe Field")
    ∷ ("col.fieldTypeTitle", "Panduan Tipe Field")
    ∷ ("col.fieldTypeIntro", "Tipe komponen input formulir:")
    ∷ ("col.ftBoolDesc", "Saklar toggle Benar/Salah.")
    ∷ ("col.ftTextDesc", "Input teks standar (string).")
    ∷ ("col.ftNumberDesc", "Input angka (int/float).")
    ∷ ("col.ftDatetimeDesc", "Pemilih tanggal & waktu.")
    ∷ ("col.ftEnumDesc", "Dropdown opsi yang sudah ditentukan.")
    ∷ ("col.ftFkDesc", "Relasi Foreign Key dengan modal pencarian.")
    ∷ ("col.swEdit", "Edit")
    ∷ ("col.swReq", "Wjb")
    ∷ ("col.swVis", "Tamp")
    ∷ ("col.swSrch", "Cari")
    ∷ ("col.swSort", "Urut")
    ∷ ("col.switchesTitle", "Saklar Kolom & Kebijakan Formulir")
    ∷ ("col.swEditLabel", "Edit (Editable)")
    ∷ (
      "col.swEditDesc",
      "Mengatur ketersediaan field formulir. Nyalakan untuk kolom PK bila input ID manual diperlukan.",
    )
    ∷ ("col.swReqLabel", "Wjb (Required)")
    ∷ ("col.swReqDesc", "Field wajib (tidak boleh kosong atau NULL).")
    ∷ ("col.swVisLabel", "Tamp (Visible)")
    ∷ ("col.swVisDesc", "Ditampilkan sebagai kolom pada grid CRUD Data.")
    ∷ ("col.swSrchLabel", "Cari (Searchable)")
    ∷ ("col.swSrchDesc", "Disertakan dalam kueri teks bilah pencarian.")
    ∷ ("col.swSortLabel", "Urut (Sortable)")
    ∷ ("col.swSortDesc", "Dapat diurutkan (ASC/DESC) saat header kolom diklik.")
    ∷ ("col.pkPolicyLabel", "Kebijakan PK:")
    ∷ (
      "col.pkPolicy",
      "Field Primary Key muncul pada Formulir Insert untuk input ID manual, dan otomatis tampil sebagai Read-Only pada Formulir Edit untuk melindungi identitas rekaman.",
    )
    ∷ ("col.disabled", "Nonaktif")
    ∷ ("col.toggleConfig", "Buka/tutup konfigurasi kolom terperinci")
    ∷ ("col.standardProps1", "Properti standar untuk tipe")
    ∷ (
      "col.standardProps2",
      "sudah dikonfigurasi di kontrol di atas. Tidak ada konfigurasi tambahan.",
    )
    ∷ ("col.validations", "Validasi:")
    ∷ ("col.vEmail", "Email")
    ∷ ("col.vNumber", "Angka saja")
    ∷ ("col.vText", "Teks saja")
    ∷ ("col.vMin", "Min")
    ∷ ("col.vMax", "Maks")
    ∷ ("col.vLen", "kar")
    ∷ ("col.enumColors", "Warna Badge Enum")
    ∷ ("col.numberFmt", "Format Angka (hanya tampilan)")
    ∷ ("col.thousands", "Pemisah ribuan")
    ∷ ("col.decimals", "Desimal")
    ∷ ("col.prefix", "Prefiks")
    ∷ ("col.computed", "Kolom Komputasi")
    ∷ ("col.computedTitle", "Panduan Kolom Komputasi")
    ∷ ("col.computed1", "Nilai dihitung saat query — tidak pernah disimpan di basis data.")
    ∷ (
      "col.computed2",
      "Kolom dirujuk berdasarkan nama. Aritmetika memakai kolom angka; CONCAT memakai kolom teks. NULL pada operand mana pun menghasilkan NULL.",
    )
    ∷ ("col.computedCmdTitle", "Perintah & Contoh yang Tersedia:")
    ∷ ("col.computedOpAdd", "Penjumlahan (+): price + tax")
    ∷ ("col.computedOpSub", "Pengurangan (-): total - discount")
    ∷ ("col.computedOpMul", "Perkalian (*): price * qty")
    ∷ ("col.computedOpDiv", "Pembagian (/): subtotal / count")
    ∷ ("col.computedOpParen", "Pengelompokan (): (price + tax) * qty")
    ∷ ("col.computedOpConcat", "Penggabungan Teks: CONCAT(first_name, \" \", last_name)")
    ∷ ("col.resultType", "Tipe Hasil")
    ∷ ("col.formula", "Formula")
    ∷ (
      "col.computed3",
      "Kolom komputasi muncul di grid, formulir, dan ekspor CSV tetapi tidak dapat diurutkan, disaring, atau dikelompokkan di sisi server.",
    )
    ∷ ("col.enumConfig", "Konfigurasi Opsi Enum ({name})")
    ∷ ("col.enumGuide", "Panduan Tipe Enum")
    ∷ (
      "col.enumGuideBody",
      "Opsi enum membatasi input formulir ke nilai tertentu. Masukkan daftar nilai dipisah koma (mis., ACTIVE, INACTIVE, PENDING).",
    )
    ∷ ("col.enumHint", "Masukkan nilai opsi enum yang diizinkan untuk kolom ini (dipisah koma).")
    ∷ ("col.parsedOptions", "Opsi terurai:")
    ∷ ("col.fkConfig", "Konfigurasi Relasi Foreign Key ({name})")
    ∷ ("col.fkGuide", "Panduan Foreign Key (FK)")
    ∷ (
      "col.fkGuide1",
      "Foreign Key menghubungkan kolom ini ke rekaman di tabel lain yang sudah didefinisikan.",
    )
    ∷ (
      "col.fkGuide2",
      "Pengguna dapat memilih rekaman terkait melalui modal pencarian interaktif saat menambah atau mengubah.",
    )
    ∷ ("col.targetRef", "Ref Target: {ref}")
    ∷ ("col.fkTargetDs", "Datasource Target")
    ∷ ("col.fkRelatedTable", "Tabel Terkait")
    ∷ ("col.fkChooseTable", "Pilih tabel terkait...")
    ∷ ("col.fkSelf", "Tabel ini (self)")
    ∷ ("col.fkRefColumn", "Kolom Referensi (PK Target / Kolom Kunci)")
    ∷ ("col.fkSelectRef", "Pilih kolom referensi...")
    ∷ ("col.fkDisplayCols", "Kolom Tampilan (field UI yang ditampilkan saat relasi dipilih)")
    ∷ ("col.nOfMSelected", "{selected} dari {total} dipilih")
    ∷ ("col.selectAll", "Pilih Semua")
    ∷ ("col.clearAll", "Kosongkan Semua")
    ∷ ("col.fkPickTableFirst", "Silakan pilih Tabel Terkait dahulu untuk memilih kolom tampilan.")
    ∷ ("col.fkNoMoreCols", "Tidak ada kolom tambahan pada tabel ini.")
    ∷ ("col.m2mTitle", "Relasi Many-to-Many")
    ∷ ("col.m2mGuide", "Panduan Many-to-Many")
    ∷ ("col.m2mGuide1", "Relasi menghubungkan tabel ini ke tabel lain melalui junction table.")
    ∷ (
      "col.m2mGuide2",
      "Junction harus sudah didefinisikan sebagai definisi tabel dengan dua kolom fk: satu mengarah ke tabel ini, satu ke target.",
    )
    ∷ (
      "col.m2mGuide3",
      "Simpan definisi tabel ini dahulu — relasi merujuknya berdasarkan id, sehingga hanya dapat dikonfigurasi saat mengubah definisi yang sudah ada.",
    )
    ∷ ("col.addRelation", "Tambah Relasi")
    ∷ ("col.m2mSaveFirst", "Simpan definisi dahulu, lalu ubah untuk menambah relasi many-to-many.")
    ∷ ("col.newRelation", "Relasi Baru")
    ∷ ("col.relLabelPh", "Label relasi (mis. Tag)")
    ∷ ("col.relLabelTitle", "Label Tampilan Relasi")
    ∷ (
      "col.relLabelDesc",
      "Label yang mudah dibaca pada grid data dan formulir isian untuk field Many-to-Many ini (mis. \"Tag\" atau \"Peran\").",
    )
    ∷ ("col.removeRelation", "Hapus relasi")
    ∷ ("col.junctionTable", "Junction Table")
    ∷ (
      "col.junctionHelp",
      "Pilih tabel jembatan yang menghubungkan tabel ini ke target. Junction harus sudah terdaftar sebagai definisi tabel dengan dua kolom fk.",
    )
    ∷ ("col.chooseJunction", "Pilih junction table...")
    ∷ ("col.linkVia", "Tautkan ke tabel ini melalui")
    ∷ ("col.srcFkTitle", "Kolom Tautan FK Sumber")
    ∷ ("col.srcFkHelp", "Pilih kolom fk di junction table yang merujuk tabel ini.")
    ∷ ("col.junctionToThis", "Kolom fk junction → tabel ini")
    ∷ ("col.noJunctionFk", "Belum ada kolom fk junction yang mengarah ke tabel ini.")
    ∷ ("col.relatedVia", "Tabel terkait melalui")
    ∷ ("col.tgtFkTitle", "Kolom Tautan FK Target")
    ∷ ("col.tgtFkHelp", "Pilih kolom fk di junction table yang merujuk tabel terkait target.")
    ∷ ("col.junctionToTarget", "Kolom fk junction → target")
    ∷ ("col.targetDisplayCols", "Kolom tampilan pada tabel target")
    ∷ ("col.targetDisplayTitle", "Kolom Tampilan Target")
    ∷ (
      "col.targetDisplayHelp",
      "Pilih kolom mana dari tabel target yang dirender pada sel grid dan chip seleksi formulir.",
    )
    ∷ ("col.clear", "Kosongkan")
    ∷ ("col.helpAria", "Informasi bantuan")
    ∷ ("data.search", "Cari baris...")
    ∷ ("data.definition", "Definisi")
    ∷ ("data.refresh", "Muat ulang")
    ∷ ("data.export", "Ekspor CSV")
    ∷ ("data.import", "Impor CSV")
    ∷ ("data.newRow", "Baris Baru")
    ∷ ("data.noRecords", "Tidak ada data")
    ∷ ("data.pageOf", "Halaman {page} dari {pages}")
    ∷ []
